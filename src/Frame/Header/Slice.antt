-- ===== src/Frame/Header/Slice.antt =====
-- The flat slice that frame/header.go keeps, `[key, value, key, value, …]`, with the index
-- arithmetic of its methods, and the proof that on such a slice they do what Header says.
-- `none` stands for a panic by an index out of range, and for a loop of `Del` that used up its fuel.
use mathlib.Core.Option
use stomp.Prelude.{
  ℕ, zero, suc, ◌+◌, ◌<◌, ◌≡◌, refl, ◌∙◌, ap, sym, inl, inr, List, [], ◌∷◌, ◌++◌, Option, none,
  some, same, if◌then◌else◌, length, get_elem?, take, drop, arith, Bool-cases, Option-cases, ◌*◌,
  ◌/◌, ◌%◌, ◌==◌,
}
use stomp.Frame.Header.{Bytes, Header, Entry}
use stomp.Frame.Header

abbrev pub Slice : Type 0
Slice = List Bytes

abbrev pub flatten : Header → Slice
flatten [] = []
flatten ((k, v) ∷ h) = k ∷ v ∷ flatten h

-- `index`: `none` for (-1, false).
index : Slice → Bytes → Option ℕ
index [] key = none
index (k ∷ []) key = if same k key then some 0 else none
index (k ∷ v ∷ s) key =
    let later = Option.map (λ i. suc (suc i)) (index s key) in if same k key then some 0 else later

-- `h.slice[i] = value`.
write : Slice → ℕ → Bytes → Option Slice
write [] i value = none
write (x ∷ s) zero value = some (value ∷ s)
write (x ∷ s) (suc i) value = Option.map (◌∷◌ x) (write s i value)

pub new_header : List Bytes → Slice
new_header s = if length s % 2 == 0 then s else s ++ [] ∷ []

pub add : Slice → Bytes → Bytes → Slice
add s key value = s ++ key ∷ value ∷ []

pub set : Slice → Bytes → Bytes → Option Slice
unfolding index write
set s key value = elim (index s key) [
  | none ↦ some (add s key value)
  | some i ↦ write s (suc i) value
]

pub contains : Slice → Bytes → Option (Option Bytes)
unfolding index
contains s key = elim (index s key) [
  | none ↦ some none
  | some i ↦ Option.map some (get_elem? s (suc i))
]

-- The entry at place `i` cut out: `append(h.slice[:i], h.slice[i+2:]...)`.
cut : Slice → ℕ → Slice
cut s i = take i s ++ drop (suc (suc i)) s

-- The loop of `Del`, with fuel for its rounds.
pub del : ℕ → Slice → Bytes → Option Slice
del zero s key = none
del (suc f) s key = elim (index s key) [ none ↦ some s | some i ↦ del f (cut s i) key ]

-- On a slice of odd length the last value is out of range.
pub get_all : Slice → Bytes → Option (List Bytes)
get_all [] key = some []
get_all (k ∷ []) key = if same k key then none else some []
get_all (k ∷ v ∷ s) key =
    let rest = get_all s key in if same k key then Option.map (λ l. v ∷ l) rest else rest

pair_of : Option Bytes → Option Bytes → Option Entry
pair_of (some k) (some v) = some (k, v)
pair_of (some k) none = none
pair_of none v = none

pub get_at : Slice → ℕ → Option Entry
unfolding pair_of
get_at s i = let index = i * 2 in pair_of (get_elem? s index) (get_elem? s (index + 1))

pub len : Slice → ℕ
len s = length s / 2

length-flatten : (h : Header) → length (flatten h) ≡ length h * 2
length-flatten [] = refl
length-flatten ((k, v) ∷ h) = omega (arith, length-flatten h)

flatten-append : (h g : Header) → flatten (h ++ g) ≡ flatten h ++ flatten g
flatten-append [] g = refl
flatten-append ((k, v) ∷ h) g = ap (λ s. k ∷ v ∷ s) (flatten-append h g)

-- Every flat slice of even length is the entries of a header.
abbrev pub HeaderOf : Slice → Type 0
HeaderOf s = (h : Header) × (s ≡ flatten h)

new_header-append : (k v : Bytes) (s : Slice) → new_header (k ∷ v ∷ s) ≡ k ∷ v ∷ new_header s
unfolding new_header
new_header-append k v s = ground arith

-- Whatever number of texts it is given, `NewHeader` makes a slice of whole entries.
pub new_header-HeaderOf : (s : List Bytes) → HeaderOf (new_header s)
unfolding new_header
new_header-HeaderOf [] = ([], refl)
new_header-HeaderOf (k ∷ []) = ((k, []) ∷ [], refl)
new_header-HeaderOf (k ∷ v ∷ s) =
    let (h, e) = new_header-HeaderOf s in
    ((k, v) ∷ h, new_header-append k v s ∙ ap (λ r. k ∷ v ∷ r) e)

contains-flatten :
    (h : Header) (key : Bytes) → contains (flatten h) key ≡ some (Header.contains h key)
unfolding contains Header.contains
contains-flatten [] key = refl
contains-flatten ((k, v) ∷ h) key = ground (arith, contains-flatten h key)

set-flatten :
    (h : Header) (key value : Bytes)
    → set (flatten h) key value ≡ some (flatten (Header.set h key value))
unfolding set add Header.set
set-flatten [] key value = refl
set-flatten ((k, v) ∷ h) key value = ground (arith, set-flatten h key value)

get_all-flatten : (h : Header) (key : Bytes) → get_all (flatten h) key ≡ some (Header.get_all h key)
unfolding get_all Header.get_all
get_all-flatten [] key = refl
get_all-flatten ((k, v) ∷ h) key = ground (arith, get_all-flatten h key)

pair_of-nil : (i : ℕ) → pair_of (get_elem? [] i) (get_elem? [] (i + 1)) ≡ none
unfolding pair_of
pair_of-nil zero = refl
pair_of-nil (suc i) = refl

get_at-flatten : (h : Header) (i : ℕ) → get_at (flatten h) i ≡ Header.get_at h i
unfolding get_at Header.get_at
get_at-flatten [] i = pair_of-nil (i * 2)
get_at-flatten ((k, v) ∷ h) zero = refl
get_at-flatten ((k, v) ∷ h) (suc i) =
    let twice : suc i * 2 ≡ suc (suc (i * 2)) = omega arith in
    let next : suc (suc (i * 2)) + 1 ≡ suc (suc (i * 2 + 1)) = omega arith in
    rw (twice, next) (get_at-flatten h i)

len-flatten : (h : Header) → len (flatten h) ≡ Header.len h
unfolding len Header.len
len-flatten h = omega (arith, length-flatten h)

add-flatten :
    (h : Header) (key value : Bytes) → add (flatten h) key value ≡ flatten (Header.add h key value)
unfolding add Header.add
add-flatten h key value = sym (flatten-append h ((key, value) ∷ []))

-- One round of `Del` on entries.
abbrev drop_first : Header → Bytes → Header
drop_first [] key = []
drop_first ((k, v) ∷ h) key = if same k key then h else (k, v) ∷ drop_first h key

cut-flatten :
    (h : Header) (key : Bytes) (i : ℕ)
    → index (flatten h) key ≡ some i
    → (cut (flatten h) i ≡ flatten (drop_first h key)) × (length (drop_first h key) < length h)
unfolding index cut
cut-flatten [] key i e = cc
cut-flatten ((k, v) ∷ h) key i e = elim (Bool-cases (same k key)) [
  | inl hit ↦ ground arith
  | inr miss ↦ elim (Option-cases (index (flatten h) key)) [
    | inl n ↦ absurd (ground arith)
    | inr (j, found) ↦
        let rest = cut-flatten h key j found in
        let e' : i ≡ suc (suc j) = ground arith in
        rw (e', miss) (ap (λ s. k ∷ v ∷ s) rest.0, omega (arith, rest.1))
  ]
]

del-drop_first : (h : Header) (key : Bytes) → Header.del (drop_first h key) key ≡ Header.del h key
unfolding Header.del
del-drop_first [] key = refl
del-drop_first ((k, v) ∷ h) key = ground (arith, del-drop_first h key)

del_absent : (h : Header) (key : Bytes) → index (flatten h) key ≡ none → Header.del h key ≡ h
unfolding index Header.del
del_absent [] key e = refl
del_absent ((k, v) ∷ h) key e = ground (arith, del_absent h key)

-- The loop ends within one round for each entry and one more.
del-flatten :
    (f : ℕ) (h : Header) (key : Bytes)
    → length h < f
    → del f (flatten h) key ≡ some (flatten (Header.del h key))
unfolding del
del-flatten zero h key le = absurd (omega arith)
del-flatten (suc f) h key le = elim (Option-cases (index (flatten h) key)) [
  | inl absent ↦ rw (absent, del) (sym (ap (λ k. some (flatten k)) (del_absent h key absent)))
  | inr (i, found) ↦
      let (cut_eq, shorter) = cut-flatten h key i found in
      rw (found, del, cut_eq)
        (del-flatten f (drop_first h key) key (omega arith)
          ∙ ap (λ k. some (flatten k)) (del-drop_first h key))
]

-- What the methods are to do to the flat slice of the entries `h`.
pub record Refines (h : Header) (key value : Bytes) : Type 0 where
  pub contains_lem : contains (flatten h) key ≡ some (Header.contains h key)
  pub set_lem : set (flatten h) key value ≡ some (flatten (Header.set h key value))
  pub add_lem : add (flatten h) key value ≡ flatten (Header.add h key value)
  pub del_lem : del (suc (len (flatten h))) (flatten h) key ≡ some (flatten (Header.del h key))
  pub get_all_lem : get_all (flatten h) key ≡ some (Header.get_all h key)
  pub get_at_lem : (i : ℕ) → get_at (flatten h) i ≡ Header.get_at h i
  pub len_lem : len (flatten h) ≡ Header.len h

-- On the flat slice of any list of entries, each method does what it does on the list: it reads the
-- same values, leaves the flat slice of the new list, and meets no index out of range; the loop of
-- `Del` ends within one round for each entry and one more.
pub slice-Refines : (h : Header) (key value : Bytes) → Refines h key value
slice-Refines h key value = record {
  contains_lem = contains-flatten h key;
  set_lem = set-flatten h key value;
  add_lem = add-flatten h key value;
  del_lem =
      del-flatten (suc (len (flatten h))) h key (unfold len in omega (arith, length-flatten h));
  get_all_lem = get_all-flatten h key;
  get_at_lem = get_at-flatten h;
  len_lem = len-flatten h;
}
