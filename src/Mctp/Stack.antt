-- ===== src/Mctp/Stack.antt =====
-- The crates that the MCTP server stands on, as parameters: the router of mctp-lib, with its state
-- abstract, and the fixed-capacity map of heapless. Nothing here models code of this repository.
use openprot.Prelude.{
  ℕ, ◌≤◌, ◌≡◌, Bool, true, false, Option, none, some, List, [], ◌∷◌, ◌==◌, if◌then◌else◌, Result,
  err, length, ltb,
}

-- `mctp::Error`; `other` stands for the variants that the server does not name.
pub data StackError : Type 0 where
  internal_error : StackError
  no_space : StackError
  addr_in_use : StackError
  timed_out : StackError
  bad_argument : StackError
  other : StackError

-- `mctp::Tag`
pub data Tag : Type 0 where
  owned : ℕ → Tag
  unowned : ℕ → Tag

-- `Tag::tag`
abbrev pub tag_value : Tag → ℕ
tag_value (owned v) = v
tag_value (unowned v) = v

-- `mctp_lib::MctpMessage`
pub record MctpMessage : Type 0 where
  pub source : ℕ
  pub typ : ℕ
  pub ic : Bool
  pub tag : Tag
  pub payload : List ℕ

-- The methods of `mctp_lib::Router` that the server calls, on its state. Cookies are numbers.
pub record Router : Type 1 where
  pub S : Type 0
  pub get_eid : S → ℕ
  pub set_eid : S → ℕ → S × Result {0, 0} StackError Unit
  pub req : S → ℕ → S × Result {0, 0} StackError ℕ
  pub listener : S → ℕ → S × Result {0, 0} StackError ℕ
  pub recv : S → ℕ → S × Option MctpMessage
  pub send : S → Option ℕ → ℕ → Option Tag → Bool → ℕ → List ℕ → S × Result {0, 0} StackError Tag
  pub update : S → ℕ → S × Result {0, 0} StackError ℕ
  pub unbind : S → ℕ → S × Result {0, 0} StackError Unit
  pub inbound : S → List ℕ → S × Result {0, 0} StackError ℕ

-- The methods of `heapless::LinearMap<u32, V, N>` that the server calls. What `insert` and
-- `remove` return besides is not used.
pub record LinearMap (V : Type 0) : Type 1 where
  pub M : Type 0
  pub empty : M
  pub get : M → ℕ → Option V
  pub insert : M → ℕ → V → M × Result {0, 0} V Unit
  pub remove : M → ℕ → M
  pub entries : M → List (ℕ × V)

-- The first value of a key in a list of pairs.
unfoldable pub find_key : {V : Type 0} → List (ℕ × V) → ℕ → Option V
find_key [] k = none
find_key (e ∷ es) k = let later = find_key es k in if e.0 == k then some e.1 else later

-- No key twice.
abbrev pub IsUnique : {V : Type 0} → List (ℕ × V) → Type 0
IsUnique [] = Unit
IsUnique (e ∷ es) = (find_key es e.0 ≡ none) × IsUnique es

-- What the map documents, at capacity `n`: `entries` visits each key once, `remove` takes out one
-- key, and `insert` of a new key fails exactly when the map is full.
pub record IsLinearMap {V : Type 0} (map : LinearMap V) (n : ℕ) : Type 0 where
  pub get-empty : (k : ℕ) → map.get map.empty k ≡ none
  pub find-entries : (m : map.M) (k : ℕ) → find_key (map.entries m) k ≡ map.get m k
  pub unique : (m : map.M) → IsUnique (map.entries m)
  pub length-entries : (m : map.M) → length (map.entries m) ≤ n
  pub get-remove :
      (m : map.M) (j k : ℕ) → map.get (map.remove m j) k ≡ (if j == k then none else map.get m k)
  pub get-insert :
      (m : map.M) (j k : ℕ) (v : V)
      → ltb (length (map.entries m)) n ≡ true
      → map.get (map.insert m j v).0 k ≡ (if j == k then some v else map.get m k)
  pub insert_full :
      (m : map.M) (j : ℕ) (v : V)
      → ltb (length (map.entries m)) n ≡ false
      → map.get m j ≡ none
      → map.insert m j v ≡ (m, err v)
