-- ===== src/Json.antt =====
-- JSON values, as Python's `dict`, `list`, `str`, `bool`, `int` and `None` hold them. An object is an
-- association list in insertion order; numbers are natural numbers.
use rgp.Prelude.{
  ℕ, suc, String, Bool, true, false, not, ◌&&◌, Option, none, some, ◌==◌, str_eq, if◌then◌else◌,
}

mutual
  pub data Value : Type 0 where
    none_value : Value
    boolean : Bool → Value
    number : ℕ → Value
    string : String → Value
    list_of : Elements → Value
    dict_of : Entries → Value

  pub data Elements : Type 0 where
    no_elements : Elements
    item : Value → Elements → Elements

  pub data Entries : Type 0 where
    no_entries : Entries
    entry : String → Value → Entries → Entries

-- d.get(key)
unfoldable pub get : String → Entries → Option Value
get key no_entries = none
get key (entry k v rest) = if str_eq k key then some v else get key rest

-- d.get(key, default)
abbrev pub get_default : String → Value → Entries → Value
get_default key default d = elim (get key d) [ none ↦ default | some v ↦ v ]

-- d[key] = value
unfoldable pub put : String → Value → Entries → Entries
put key value no_entries = entry key value no_entries
put key value (entry k v rest) =
    if str_eq k key then entry k value rest else entry k v (put key value rest)

-- key in d
abbrev pub has_key : String → Entries → Bool
has_key key d = elim (get key d) [ none ↦ false | some _ ↦ true ]

unfoldable pub size_entries : Entries → ℕ
size_entries no_entries = 0
size_entries (entry _ _ rest) = suc (size_entries rest)

-- bool(value)
unfoldable pub truthy : Value → Bool
truthy none_value = false
truthy (boolean b) = b
truthy (number n) = not (n == 0)
truthy (string s) = not (str_eq s "")
truthy (list_of no_elements) = false
truthy (list_of (item _ _)) = true
truthy (dict_of no_entries) = false
truthy (dict_of (entry _ _ _)) = true

-- An integer, or a `bool` as the integer that it is.
abbrev pub as_number : Value → Option ℕ
as_number (number n) = some n
as_number (boolean true) = some 1
as_number (boolean false) = some 0
as_number _ = none

abbrev same_number : ℕ → Value → Bool
same_number n v = elim (as_number v) [ none ↦ false | some m ↦ n == m ]

-- left == right: `True == 1`, and two objects are equal whatever the order of their keys.
unfoldable mutual
  unfolding get size_entries

  pub equal : Value → Value → Bool
  equal none_value none_value = true
  equal (boolean true) w = same_number 1 w
  equal (boolean false) w = same_number 0 w
  equal (number n) w = same_number n w
  equal (string s) (string t) = str_eq s t
  equal (list_of xs) (list_of ys) = equal_elements xs ys
  equal (dict_of fs) (dict_of gs) = size_entries fs == size_entries gs && equal_entries fs gs
  equal _ _ = false

  pub equal_elements : Elements → Elements → Bool
  equal_elements no_elements no_elements = true
  equal_elements (item x xs) (item y ys) = equal x y && equal_elements xs ys
  equal_elements _ _ = false

  pub equal_entries : Entries → Entries → Bool
  equal_entries no_entries gs = true
  equal_entries (entry k v rest) gs =
      elim (get k gs) [ none ↦ false | some w ↦ equal v w ] && equal_entries rest gs

-- value in items
unfoldable pub member : Value → Elements → Bool
unfolding equal
member v no_elements = false
member v (item x xs) = let rest = member v xs in if equal x v then true else rest
