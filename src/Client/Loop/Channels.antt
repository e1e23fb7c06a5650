-- ===== src/Client/Loop/Channels.antt =====
-- The channels of `processLoop` of conn.go: each open, and under one key of the map.
use stomp.Prelude.{
  ℕ, ◌+◌, ◌≤◌, ◌<◌, ◌≡◌, ◌≢◌, refl, Bool, true, false, List, [], ◌∷◌, Option, none, some, ◌==◌,
  if◌then◌else◌, arith, All,
}
use stomp.Go.Map
use stomp.Go.Map.{Map}
use stomp.Client.Loop.{member}

unfoldable pub holds : ℕ → Map (Option ℕ) → Bool
holds ch [] = false
holds ch ((key, none) ∷ m) = holds ch m
holds ch ((key, some c) ∷ m) = if c == ch then true else holds ch m

-- Below `n`, open, and under one key.
unfoldable pub UsableMap : ℕ → List ℕ → Map (Option ℕ) → Type 0
unfolding holds
UsableMap n cl [] = Unit {0}
UsableMap n cl ((key, none) ∷ m) = ⊥
UsableMap n cl ((key, some ch) ∷ m) =
    (ch < n) × (member ch cl ≡ false) × (holds ch m ≡ false) × UsableMap n cl m

member-below : (n ch : ℕ) (cl : List ℕ) → All (λ c. c < n) cl → n ≤ ch → member ch cl ≡ false
member-below n ch [] h k = refl
member-below n ch (c ∷ cl) h k = ground (arith, member-below n ch cl h.1 k)

holds-below :
    (n ch : ℕ) (cl : List ℕ) (m : Map (Option ℕ)) → UsableMap n cl m → n ≤ ch → holds ch m ≡ false
unfolding UsableMap holds
holds-below n ch cl [] h k = refl
holds-below n ch cl ((key, none) ∷ m) h k = absurd h
holds-below n ch cl ((key, some c) ∷ m) h k = ground (arith, holds-below n ch cl m h.3 k)

pub UsableMap-mono :
    (n n' : ℕ) (cl : List ℕ) (m : Map (Option ℕ)) → n ≤ n' → UsableMap n cl m → UsableMap n' cl m
unfolding UsableMap
UsableMap-mono n n' cl [] k h = tt
UsableMap-mono n n' cl ((key, none) ∷ m) k h = h
UsableMap-mono n n' cl ((key, some c) ∷ m) k h =
    (omega arith, h.1, h.2, UsableMap-mono n n' cl m k h.3)

-- A channel that stands in no entry may be closed.
pub UsableMap-close :
    (n ch : ℕ) (cl : List ℕ) (m : Map (Option ℕ))
    → holds ch m ≡ false
    → UsableMap n cl m
    → UsableMap n (ch ∷ cl) m
unfolding UsableMap holds
UsableMap-close n ch cl [] k h = tt
UsableMap-close n ch cl ((key, none) ∷ m) k h = h
UsableMap-close n ch cl ((key, some c) ∷ m) k h = ground (arith, UsableMap-close n ch cl m)

holds-delete :
    (ch : ℕ) (m : Map (Option ℕ)) (key : List ℕ)
    → holds ch m ≡ false
    → holds ch (Map.delete m key) ≡ false
unfolding holds Map.delete
holds-delete ch [] key h = refl
holds-delete ch ((j, none) ∷ m) key h = ground (arith, holds-delete ch m key)
holds-delete ch ((j, some c) ∷ m) key h = ground (arith, holds-delete ch m key)

holds-lookup :
    (ch : ℕ) (m : Map (Option ℕ)) (key : List ℕ)
    → Map.lookup m key ≡ some (some ch)
    → holds ch m ≡ true
unfolding holds Map.lookup
holds-lookup ch [] key e = ground arith
holds-lookup ch ((j, none) ∷ m) key e = ground (arith, holds-lookup ch m key)
holds-lookup ch ((j, some c) ∷ m) key e = ground (arith, holds-lookup ch m key)

holds-insert :
    (ch c : ℕ) (m : Map (Option ℕ)) (key : List ℕ)
    → holds c m ≡ false
    → c ≢ ch
    → holds c (Map.insert m key (some ch)) ≡ false
unfolding holds Map.insert
holds-insert ch c [] key h k = ground arith
holds-insert ch c ((j, none) ∷ m) key h k = ground (arith, holds-insert ch c m key)
holds-insert ch c ((j, some d) ∷ m) key h k = ground (arith, holds-insert ch c m key)

-- What a lookup finds is open; without its entry it may be closed.
pub UsableMap-lookup :
    (n : ℕ) (cl : List ℕ) (m : Map (Option ℕ)) (key : List ℕ)
    → UsableMap n cl m
    → Map.lookup m key ≢ some none
unfolding UsableMap Map.lookup
UsableMap-lookup n cl [] key h e = ground arith
UsableMap-lookup n cl ((j, none) ∷ m) key h e = absurd h
UsableMap-lookup n cl ((j, some c) ∷ m) key h e = ground (arith, UsableMap-lookup n cl m key h.3)

pub lookup-open :
    (n ch : ℕ) (cl : List ℕ) (m : Map (Option ℕ)) (key : List ℕ)
    → UsableMap n cl m
    → Map.lookup m key ≡ some (some ch)
    → (member ch cl ≡ false) × (ch < n)
unfolding UsableMap Map.lookup
lookup-open n ch cl [] key h e = ground arith
lookup-open n ch cl ((j, none) ∷ m) key h e = absurd h
lookup-open n ch cl ((j, some c) ∷ m) key h e = ground (arith, lookup-open n ch cl m key h.3)

UsableMap-delete :
    (n : ℕ) (cl : List ℕ) (m : Map (Option ℕ)) (key : List ℕ)
    → UsableMap n cl m
    → UsableMap n cl (Map.delete m key)
unfolding UsableMap Map.delete
UsableMap-delete n cl [] key h = tt
UsableMap-delete n cl ((j, none) ∷ m) key h = absurd h
UsableMap-delete n cl ((j, some c) ∷ m) key h =
    ground (arith, UsableMap-delete n cl m key h.3, holds-delete c m key)

pub UsableMap-drop :
    (n ch : ℕ) (cl : List ℕ) (m : Map (Option ℕ)) (key : List ℕ)
    → UsableMap n cl m
    → Map.lookup m key ≡ some (some ch)
    → UsableMap n (ch ∷ cl) (Map.delete m key)
unfolding UsableMap Map.delete Map.lookup
UsableMap-drop n ch cl [] key h e = tt
UsableMap-drop n ch cl ((j, none) ∷ m) key h e = absurd h
UsableMap-drop n ch cl ((j, some c) ∷ m) key h e = ground (
  arith,
  UsableMap-close n ch cl (Map.delete m key),
  holds-delete ch m key,
  holds-delete c m key,
  UsableMap-delete n cl m key h.3,
  UsableMap-drop n ch cl m key h.3,
  holds-lookup ch m key,
)

pub UsableMap-insert :
    (n ch : ℕ) (cl : List ℕ) (m : Map (Option ℕ)) (key : List ℕ)
    → All (λ c. c < n) cl
    → n ≤ ch
    → UsableMap n cl m
    → UsableMap (ch + 1) cl (Map.insert m key (some ch))
unfolding UsableMap Map.insert holds
UsableMap-insert n ch cl [] key a k h = (omega arith, member-below n ch cl a k, refl, tt)
UsableMap-insert n ch cl ((j, none) ∷ m) key a k h = absurd h
UsableMap-insert n ch cl ((j, some c) ∷ m) key a k h = ground (
  arith,
  UsableMap-insert n ch cl m key a k h.3,
  UsableMap-mono n (ch + 1) cl m,
  member-below n ch cl a k,
  holds-below n ch cl m h.3 k,
  holds-insert ch c m key,
)
