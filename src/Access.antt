-- ===== src/Access.antt =====
-- src/access/mod.rs: who may do what: the actions, the roles and the kinds of access control.
-- A set of keys is a HashMap to the unit type. The `bech32` and `hex` crates enter as a record.
pub mod OpenAccess
pub mod Whitelist
pub mod RoleBased
pub mod Roles
pub mod Contention
mod Tests
use blossom_rs.Prelude.{
  zero, suc, drop, reverse, ℕ, ◌+◌, ◌≡◌, Bool, true, false, Text, list_key, nat_key, Option, none,
  some, List, [], ◌∷◌, map, ◌==◌, leb, not, ◌&&◌, ◌||◌, if◌then◌else◌, length, is_ascii_digit,
  bytes_of, list_same_iff,
}
use blossom_rs.HashMap.{HashMap, insert, remove, contains_key, len}

-- `bech32::decode`, the prefix and the data, and `hex::encode`.
pub record Codecs : Type 0 where
  pub decode : Text → Option (Text × List ℕ)
  pub encode : List ℕ → Text

-- How many bytes the White_Space character at the front of a UTF-8 text has; 0 if there is none.
abbrev white₃ : ℕ → ℕ → Text → ℕ
white₃ a b [] = 0
white₃ a b (c ∷ s) =
    if (a == 225 && b == 154 && c == 128)
      || (a == 226 && b == 128 && ((leb 128 c && leb c 138) || c == 168 || c == 169 || c == 175))
      || (a == 226 && b == 129 && c == 159)
      || (a == 227 && b == 128 && c == 128)
    then 3
    else 0

abbrev white₂ : ℕ → Text → ℕ
white₂ a [] = 0
white₂ a (b ∷ s) = if a == 194 && (b == 133 || b == 160) then 2 else white₃ a b s

abbrev white : Text → ℕ
white [] = 0
white (a ∷ s) = if (leb 9 a && leb a 13) || a == 32 then 1 else white₂ a s

-- The same at the end of a text that is given backwards.
abbrev white_back₃ : ℕ → ℕ → Text → ℕ
white_back₃ c b [] = 0
white_back₃ c b (a ∷ s) = white₃ a b (c ∷ [])

abbrev white_back₂ : ℕ → Text → ℕ
white_back₂ b [] = 0
white_back₂ b (a ∷ s) = if white₂ a (b ∷ []) == 2 then 2 else white_back₃ b a s

abbrev white_back : Text → ℕ
white_back [] = 0
white_back (a ∷ s) = if white (a ∷ []) == 1 then 1 else white_back₂ a s

-- The characters that a test finds are dropped; the fuel is the length of the text.
trim_by : (Text → ℕ) → ℕ → Text → Text
trim_by at zero s = s
trim_by at (suc fuel) s =
    let rest = trim_by at fuel (drop (at s) s) in if at s == 0 then s else rest

-- `str::trim`.
unfoldable pub trim : Text → Text
unfolding trim_by
trim s =
    let front = trim_by white (length s) s in
    reverse (trim_by white_back (length front) (reverse front))

unfoldable pub starts_with : Text → Text → Bool
starts_with s [] = true
starts_with [] (d ∷ p) = false
starts_with (c ∷ s) (d ∷ p) = c == d && starts_with s p

unfoldable pub is_ascii_hexdigit : ℕ → Bool
is_ascii_hexdigit c = is_ascii_digit c || (leb b'a' c && leb c b'f') || (leb b'A' c && leb c b'F')

abbrev pub all : {A : Type 0} → (A → Bool) → List A → Bool
all p [] = true
all p (x ∷ xs) = p x && all p xs

pub data Action : Type 0 where
  upload : Action
  download : Action
  delete : Action
  list : Action
  mirror : Action
  admin_action : Action
  lock : Action

pub data Role : Type 0 where
  admin : Role
  member : Role
  denied : Role

abbrev pub HashSet : Type 0
HashSet = HashMap Text (Unit {0})

abbrev pub add_to : HashSet → Text → HashSet
add_to keys k = insert keys k tt

abbrev pub set_of : List Text → HashSet
set_of [] = []
set_of (k ∷ ks) = add_to (set_of ks) k

module _ (codecs : Codecs) where
  pub normalize_pubkey : Text → Option Text
  normalize_pubkey input =
      let input = trim input in
      if starts_with input (bytes_of "npub1")
      then elim (codecs.decode input) [
        | none ↦ none
        | some (hrp, bytes) ↦
            if not (hrp == (bytes_of "npub")) || not (length bytes == 32)
            then none
            else some (codecs.encode bytes)
      ]
      else (if length input == 64 && all is_ascii_hexdigit input then some input else none)

  pub normalized : Text → Text
  normalized pubkey = elim (normalize_pubkey pubkey) [ none ↦ pubkey | some k ↦ k ]

-- The default of `AccessControl::role`, from `is_allowed`.
pub default_role : (Text → Action → Bool) → Text → Role
default_role is_allowed pubkey =
    if is_allowed pubkey admin_action
    then admin
    else (if is_allowed pubkey upload then member else denied)

pub record RoleBasedAccess : Type 0 where
  pub admins : HashSet
  pub members : HashSet

-- The set that `try_read` gives, if it gives one, has the key.
abbrev holds : Option HashSet → Text → Bool
holds none pubkey = false
holds (some keys) pubkey = contains_key keys pubkey

-- `RoleBasedAccess::role` on what the two `try_read`s give.
pub role_of : Option HashSet → Option HashSet → Text → Role
role_of admins members pubkey =
    if holds admins pubkey then admin else (if holds members pubkey then member else denied)

abbrev is_admin_action : Action → Bool
is_admin_action admin_action = true
is_admin_action upload = false
is_admin_action download = false
is_admin_action delete = false
is_admin_action list = false
is_admin_action mirror = false
is_admin_action lock = false

abbrev allowed_as : Role → Action → Bool
allowed_as admin action = true
allowed_as member action = not (is_admin_action action)
allowed_as denied action = false

pub is_allowed_of : Option HashSet → Option HashSet → Text → Action → Bool
unfolding role_of
is_allowed_of admins members pubkey action = allowed_as (role_of admins members pubkey) action
