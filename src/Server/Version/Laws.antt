-- ===== src/Server/Version/Laws.antt =====
-- The version that is chosen is the highest one that both sides know.
use stomp.Prelude.{
  ◌≡◌, refl, ◌∙◌, ap, inl, inr, true, false, List, [], ◌∷◌, Option, none, some, same, same_iff,
  same_sym, one_of, ◌||◌, if◌then◌else◌, arith, All, Bool-cases, Option-cases, subst,
}
use stomp.Go.Result.{ok, err}
use stomp.Go.Split.{split}
use stomp.Frame.Command
use stomp.Frame.Key
use stomp.Frame.Header.{Bytes, contains}
use stomp.Frame.Base.{Frame}
use stomp.Server.ClientError.{not_connect_frame, missing_header}
use stomp.Server.Version.{
  v10, v11, v12, le_bytes, insert_sorted, sort_strings, next_version, last_known, or_unknown,
  determine_version,
}

-- The highest known version among `l`, or `found`.
abbrev pub highest : Option Bytes → List Bytes → Option Bytes
highest found l =
    if one_of v12 l
    then some v12
    else if one_of v11 l
    then some v11
    else if one_of v10 l
    then some v10
    else found

le_bytes_total : (s t : Bytes) → le_bytes s t ≡ false → le_bytes t s ≡ true
unfolding le_bytes
le_bytes_total [] t h = absurd (ground arith)
le_bytes_total (c ∷ s) [] h = refl
le_bytes_total (c ∷ s) (d ∷ t) h = ground (arith, le_bytes_total s t)

le_bytes_trans : (s t u : Bytes) → le_bytes s t ≡ true → le_bytes t u ≡ true → le_bytes s u ≡ true
unfolding le_bytes
le_bytes_trans [] t u h k = refl
le_bytes_trans (c ∷ s) [] u h k = absurd (ground arith)
le_bytes_trans (c ∷ s) (d ∷ t) [] h k = absurd (ground arith)
le_bytes_trans (c ∷ s) (d ∷ t) (e ∷ u) h k = ground (arith, le_bytes_trans s t u)

-- Every member is at least `v`.
abbrev AtLeast : Bytes → List Bytes → Type 0
AtLeast v = All (λ w. le_bytes v w ≡ true)

abbrev IsSorted : List Bytes → Type 0
IsSorted [] = Unit {0}
IsSorted (v ∷ l) = AtLeast v l × IsSorted l

AtLeast-trans : (v w : Bytes) (l : List Bytes) → le_bytes v w ≡ true → AtLeast w l → AtLeast v l
AtLeast-trans v w [] h k = tt
AtLeast-trans v w (x ∷ l) h k = (le_bytes_trans v w x h k.0, AtLeast-trans v w l h k.1)

AtLeast-insert_sorted :
    (x v : Bytes) (l : List Bytes)
    → le_bytes x v ≡ true
    → AtLeast x l
    → AtLeast x (insert_sorted v l)
unfolding insert_sorted
AtLeast-insert_sorted x v [] h k = (h, tt)
AtLeast-insert_sorted x v (w ∷ l) h k = elim (Bool-cases (le_bytes v w)) [
  | inl e ↦ rw e (h, k)
  | inr e ↦ rw e (k.0, AtLeast-insert_sorted x v l h k.1)
]

insert_sorted-IsSorted : (v : Bytes) (l : List Bytes) → IsSorted l → IsSorted (insert_sorted v l)
unfolding insert_sorted
insert_sorted-IsSorted v [] h = (tt, tt)
insert_sorted-IsSorted v (w ∷ l) h = elim (Bool-cases (le_bytes v w)) [
  | inl e ↦ rw e ((e, AtLeast-trans v w l e h.0), h)
  | inr e ↦
      rw e (AtLeast-insert_sorted w v l (le_bytes_total v w e) h.0, insert_sorted-IsSorted v l h.1)
]

sort_strings-IsSorted : (l : List Bytes) → IsSorted (sort_strings l)
unfolding sort_strings
sort_strings-IsSorted [] = tt
sort_strings-IsSorted (v ∷ l) = insert_sorted-IsSorted v (sort_strings l) (sort_strings-IsSorted l)

one_of-insert_sorted :
    (x v : Bytes) (l : List Bytes) → one_of x (insert_sorted v l) ≡ (same x v || one_of x l)
unfolding one_of insert_sorted
one_of-insert_sorted x v [] = refl
one_of-insert_sorted x v (w ∷ l) = ground (arith, one_of-insert_sorted x v l)

one_of-sort_strings : (x : Bytes) (l : List Bytes) → one_of x (sort_strings l) ≡ one_of x l
unfolding one_of sort_strings
one_of-sort_strings x [] = refl
one_of-sort_strings x (v ∷ l) =
    one_of-insert_sorted x v (sort_strings l) ∙ ap (λ b. same x v || b) (one_of-sort_strings x l)

-- What lies strictly below all members is no member.
not_one_of :
    (v x : Bytes) (l : List Bytes) → le_bytes v x ≡ false → AtLeast v l → one_of x l ≡ false
unfolding one_of
not_one_of v x [] h k = refl
not_one_of v x (w ∷ l) h k = ground (arith, not_one_of v x l h k.1, same_iff x w)

highest-v10 :
    (found : Option Bytes) (l : List Bytes) → highest (some v10) l ≡ highest found (v10 ∷ l)
unfolding one_of same
highest-v10 found l = ground arith

highest-v11 :
    (found : Option Bytes) (l : List Bytes)
    → AtLeast v11 l
    → highest (some v11) l ≡ highest found (v11 ∷ l)
unfolding one_of same
highest-v11 found l h = ground (arith, not_one_of v11 v10 l (unfold le_bytes in refl) h)

highest-v12 :
    (found : Option Bytes) (l : List Bytes)
    → AtLeast v12 l
    → highest (some v12) l ≡ highest found (v12 ∷ l)
unfolding one_of same
highest-v12 found l h = ground (
  arith,
  not_one_of v12 v10 l (unfold le_bytes in refl) h,
  not_one_of v12 v11 l (unfold le_bytes in refl) h,
)

highest-unknown :
    (found : Option Bytes) (v : Bytes) (l : List Bytes)
    → same v v10 ≡ false
    → same v v11 ≡ false
    → same v v12 ≡ false
    → highest found l ≡ highest found (v ∷ l)
unfolding one_of
highest-unknown found v l a b c = ground (arith, same_sym v v10, same_sym v v11, same_sym v v12)

-- The switch keeps the highest version, since the texts come in order.
highest-next_version :
    (found : Option Bytes) (v : Bytes) (l : List Bytes)
    → AtLeast v l
    → highest (next_version found v) l ≡ highest found (v ∷ l)
unfolding next_version one_of
highest-next_version found v l h = elim (Bool-cases (same v v10)) [
  | inl a ↦ let e = (same_iff v v10).0 a in rw (a, next_version) (rw e (highest-v10 found l))
  | inr a ↦ elim (Bool-cases (same v v11)) [
    | inl b ↦
        let e = (same_iff v v11).0 b in
        rw (a, next_version) (rw (b) (rw e (highest-v11 found l (subst (λ w. AtLeast w l) e h))))
    | inr b ↦ elim (Bool-cases (same v v12)) [
      | inl c ↦
          let e = (same_iff v v12).0 c in
          rw (a, next_version)
            (rw (b) (rw (c) (rw e (highest-v12 found l (subst (λ w. AtLeast w l) e h)))))
      | inr c ↦ rw (a, next_version) (rw (b) (rw (c) (highest-unknown found v l a b c)))
    ]
  ]
]

last_known-highest :
    (found : Option Bytes) (l : List Bytes) → IsSorted l → last_known found l ≡ highest found l
unfolding last_known one_of
last_known-highest found [] h = refl
last_known-highest found (v ∷ l) h =
    last_known-highest (next_version found v) l h.1 ∙ highest-next_version found v l h.0

highest-sort_strings :
    (found : Option Bytes) (l : List Bytes) → highest found (sort_strings l) ≡ highest found l
highest-sort_strings found l =
    rw (one_of-sort_strings v12 l, one_of-sort_strings v11 l, one_of-sort_strings v10 l) refl

-- A CONNECT or STOMP frame with an accept-version entry gets the highest of 1.2, 1.1 and 1.0 that
-- the entry lists, in whatever order, or the error that none is known; without the entry a CONNECT
-- frame gets 1.0 and a STOMP frame the error that the entry is missing; any other frame gets the
-- error that it is neither.
pub determine_version_lem :
    (f : Frame)
    → determine_version f ≡ (
        if same f.command Command.connect || same f.command Command.stomp_connect
        then elim (contains f.header Key.accept_version) [
          | some versions ↦ or_unknown (highest none (split b',' versions))
          | none ↦
              if same f.command Command.connect
              then ok v10
              else err (missing_header Key.accept_version)
        ]
        else err not_connect_frame)
unfolding determine_version
determine_version_lem f = elim (Option-cases (contains f.header Key.accept_version)) [
  | inl e ↦ ground arith
  | inr (versions, e) ↦ ground (
    arith,
    last_known-highest none (sort_strings (split b',' versions))
        (sort_strings-IsSorted (split b',' versions)),
    highest-sort_strings none (split b',' versions),
  )
]
