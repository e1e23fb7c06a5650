-- ===== src/Frame/Header/Laws.antt =====
-- How the header's operations see one another.
use stomp.Prelude.{
  ◌≡◌, refl, [], ◌∷◌, ◌++◌, none, sym, append-nil, append_assoc, ◌∙◌, some, same, same_iff,
  same_refl, if◌then◌else◌, arith,
}
use stomp.Frame.Header.{Bytes, Header, add, add_header, set, contains, get_all, del}

-- `Set` writes one key and leaves every other key as it was.
pub contains-set :
    (h : Header) (key value j : Bytes)
    → contains (set h key value) j ≡ (if same key j then some value else contains h j)
unfolding contains set
contains-set [] key value j = refl
contains-set ((k, v) ∷ h) key value j =
    ground (arith, contains-set h key value j, same_iff k key, same_iff k j, same_iff key j)

-- `Add` is seen only where the key had no entry: the first entry of a key counts.
pub contains-add :
    (h : Header) (key value j : Bytes)
    → contains (add h key value) j
      ≡ elim (contains h j) [ some v ↦ some v | none ↦ if same key j then some value else none ]
unfolding contains add
contains-add [] key value j = refl
contains-add ((k, v) ∷ h) key value j = ground (arith, contains-add h key value j)

-- `Del` takes away all entries of one key and leaves every other key as it was.
pub contains-del :
    (h : Header) (key j : Bytes)
    → contains (del h key) j ≡ (if same key j then none else contains h j)
unfolding contains del
contains-del [] key j = ground arith
contains-del ((k, v) ∷ h) key j =
    ground (arith, contains-del h key j, same_iff k key, same_iff k j, same_iff key j)

-- The value that `Contains` reports is the first of those that `GetAll` lists.
pub contains-get_all :
    (h : Header) (key : Bytes)
    → contains h key ≡ elim (get_all h key) [ [] ↦ none | v ∷ _ ↦ some v ]
unfolding contains get_all
contains-get_all [] key = refl
contains-get_all ((k, v) ∷ h) key = ground (arith, contains-get_all h key)

pub get_all-del : (h : Header) (key : Bytes) → get_all (del h key) key ≡ []
unfolding get_all del
get_all-del [] key = refl
get_all-del ((k, v) ∷ h) key = ground (arith, get_all-del h key)

pub add_header-append : (h other : Header) → add_header h other ≡ h ++ other
unfolding add_header add
add_header-append h [] = sym (append-nil h)
add_header-append h ((k, v) ∷ other) =
    add_header-append (h ++ (k, v) ∷ []) other ∙ append_assoc h ((k, v) ∷ []) other

-- Deleting a key twice is deleting it once.
pub del_idem : (h : Header) (key : Bytes) → del (del h key) key ≡ del h key
unfolding del
del_idem [] key = refl
del_idem ((k, v) ∷ h) key = ground (arith, del_idem h key)

pub set_twice : (h : Header) (key v w : Bytes) → set (set h key v) key w ≡ set h key w
unfolding set
set_twice [] key v w = ground (arith, same_refl key)
set_twice ((k, x) ∷ h) key v w = ground (arith, set_twice h key v w)
