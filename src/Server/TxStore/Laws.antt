-- ===== src/Server/TxStore/Laws.antt =====
-- The life of a transaction.
use stomp.Prelude.{
  ◌≡◌, refl, sym, ap, ◌∙◌, append-nil, subst, List, [], ◌∷◌, ◌++◌, Option, none, some, same,
  same_iff, if◌then◌else◌, arith, Bool-cases, Option-cases, inl, inr, All,
}
use stomp.Go.Result.{ok, Result-cases}
use stomp.Go.Map.{insert, delete, lookup-insert, lookup-delete}
use stomp.Frame.Key
use stomp.Frame.Header.{Bytes}
use stomp.Frame.Base.{Frame, del}
use stomp.Server.ClientError.{ClientError, tx_already_in_progress, tx_unknown}
use stomp.Server.Panic.{OrPanic}
use stomp.Server.TxStore.{TxStore, or_made, find, begin, abort, add, commit, commit_loop}

-- `Begin` opens an empty transaction under a new name, refuses a name that is open, and touches no
-- other transaction in either case.
pub begin_lem :
    (t : TxStore) (tx j : Bytes)
    → ((begin t tx).1 ≡ elim (find t tx) [ none ↦ none | some _ ↦ some tx_already_in_progress ])
      × (find (begin t tx).0 j
          ≡ (if same tx j then elim (find t tx) [ none ↦ some [] | some l ↦ some l ] else find t j))
unfolding begin
begin_lem t tx j = ground (arith, lookup-insert (or_made t.transactions) tx j [], same_iff tx j)

-- `Add` puts the frame, without its transaction header, behind the frames of an open transaction,
-- refuses one that is not open, and touches no other transaction.
pub add_lem :
    (t : TxStore) (tx j : Bytes) (f : Frame)
    → ((add t tx f).2 ≡ elim (find t tx) [ none ↦ some tx_unknown | some _ ↦ none ])
      × (find (add t tx f).0 j ≡ (
          if same tx j
          then elim (find t tx) [ none ↦ none | some l ↦ some (l ++ del f Key.transaction ∷ []) ]
          else find t j))
unfolding add
add_lem t tx j f = elim (Option-cases (find t tx)) [
  | inl e ↦ ground (arith, same_iff tx j)
  | inr (l, e) ↦ ground (
    arith,
    lookup-insert (or_made t.transactions) tx j (l ++ del f Key.transaction ∷ []),
    same_iff tx j,
  )
]

-- `Abort` closes the transaction, whatever it holds, refuses one that is not open, and touches no
-- other transaction.
pub abort_lem :
    (t : TxStore) (tx j : Bytes)
    → ((abort t tx).1 ≡ elim (find t tx) [ none ↦ some tx_unknown | some _ ↦ none ])
      × (find (abort t tx).0 j ≡ (if same tx j then none else find t j))
unfolding abort
abort_lem t tx j = ground (arith, lookup-delete (or_made t.transactions) tx j, same_iff tx j)

-- The callback accepts these frames one after the other, each in the state that the one before it has
-- left, and so comes from the first state to the second.
abbrev pub Runs {ℓ} :
    {S : Type ℓ} → (S → Frame → OrPanic (S × Option ClientError)) → List Frame → S → S → Type ℓ
Runs commit_func [] s s' = s ≡ s'
Runs {S = S} commit_func (f ∷ l) s s' =
    (t : S) × (commit_func s f ≡ ok (t, none)) × Runs commit_func l t s'

-- The loop on frames that are accepted, and what follows them.
commit_loop-Runs {ℓ} :
    {S : Type ℓ} (commit_func : S → Frame → OrPanic (S × Option ClientError)) (l rest : List Frame)
    (s s' : S)
    → Runs commit_func l s s'
    → commit_loop commit_func (l ++ rest) s ≡ commit_loop commit_func rest s'
unfolding commit_loop
commit_loop-Runs commit_func [] rest s s' r = ap (commit_loop commit_func rest) r
commit_loop-Runs commit_func (f ∷ l) rest s s' (t, e, r) =
    rw e (commit_loop-Runs commit_func l rest t s' r)

commit_loop-nil {ℓ} :
    {S : Type ℓ} (commit_func : S → Frame → OrPanic (S × Option ClientError)) (s : S)
    → commit_loop commit_func [] s ≡ ok ([], s, none)
unfolding commit_loop
commit_loop-nil commit_func s = refl

commit_loop-error {ℓ} :
    {S : Type ℓ} (commit_func : S → Frame → OrPanic (S × Option ClientError)) (f : Frame)
    (rest : List Frame) (s s' : S) (x : ClientError)
    → commit_func s f ≡ ok (s', some x)
    → commit_loop commit_func (f ∷ rest) s ≡ ok (rest, s', some x)
unfolding commit_loop
commit_loop-error commit_func f rest s s' x e = rw e refl

-- If the transaction is open and the callback accepts its frames, run one after the other in the order
-- in which they were added, then `Commit` ends without an error in the state that they lead to, closes
-- the transaction and touches no other one.
pub commit-Runs {ℓ} :
    {S : Type ℓ} (t : TxStore) (tx j : Bytes) (l : List Frame)
    (commit_func : S → Frame → OrPanic (S × Option ClientError)) (s s' : S)
    → find t tx ≡ some l
    → Runs commit_func l s s'
    → (t' : TxStore) × (commit t tx commit_func s ≡ ok (t', s', none))
      × (find t' j ≡ (if same tx j then none else find t j))
unfolding commit
commit-Runs t tx j l commit_func s s' e r =
    let loop : commit_loop commit_func l s ≡ ok ([], s', none) =
      ap (λ k. commit_loop commit_func k s) (sym (append-nil l))
      ∙ commit_loop-Runs commit_func l [] s s' r
      ∙ commit_loop-nil commit_func s' in
    (
      record { transactions = some (delete (or_made t.transactions) tx) },
      rw e (rw loop refl),
      lookup-delete (or_made t.transactions) tx j,
    )

-- If the callback accepts some of the frames and refuses the one behind them, `Commit` returns that
-- error in the state that the refused frame has left, runs no frame behind it, and leaves the
-- transaction open with just the frames behind it, and every other one as it was.
pub commit-refused {ℓ} :
    {S : Type ℓ} (t : TxStore) (tx j : Bytes) (l rest : List Frame) (f : Frame)
    (commit_func : S → Frame → OrPanic (S × Option ClientError)) (s s' s2 : S) (x : ClientError)
    → find t tx ≡ some (l ++ f ∷ rest)
    → Runs commit_func l s s'
    → commit_func s' f ≡ ok (s2, some x)
    → (t' : TxStore) × (commit t tx commit_func s ≡ ok (t', s2, some x))
      × (find t' j ≡ (if same tx j then some rest else find t j))
unfolding commit
commit-refused t tx j l rest f commit_func s s' s2 x e r q =
    let loop : commit_loop commit_func (l ++ f ∷ rest) s ≡ ok (rest, s2, some x) =
      commit_loop-Runs commit_func l (f ∷ rest) s s' r
      ∙ commit_loop-error commit_func f rest s' s2 x q in
    (
      record { transactions = some (insert (or_made t.transactions) tx rest) },
      rw e (rw loop refl),
      lookup-insert (or_made t.transactions) tx j rest,
    )

-- What the callback keeps is kept by the loop, and the frames that are left are some of the frames.
commit_loop-Inv {ℓ κ ι} :
    {S : Type ℓ} (I : S → Type κ) (Q : Frame → Type ι)
    (commit_func : S → Frame → OrPanic (S × Option ClientError))
    → ((s s' : S) (f : Frame) (e : Option ClientError)
        → I s
        → Q f
        → commit_func s f ≡ ok (s', e)
        → I s')
    → (l : List Frame) (s : S) (l' : List Frame) (s' : S) (e : Option ClientError) → I s
    → All Q l
    → commit_loop commit_func l s ≡ ok (l', s', e)
    → I s' × All Q l'
unfolding commit_loop
commit_loop-Inv I Q commit_func keeps [] s l' s' e i q h =
    let same_state : s ≡ s' = ground arith in
    let none_left : [] ≡ l' = ground arith in (subst I same_state i, subst (All Q) none_left tt)
commit_loop-Inv I Q commit_func keeps (f ∷ l) s l' s' e i q h =
    elim (Result-cases (commit_func s f)) [
      | inr (p, c) ↦ absurd (ground arith)
      | inl ((t, none), c) ↦
          commit_loop-Inv I Q commit_func keeps l t l' s' e (keeps s t f none i q.0 c) q.1
            (ground arith)
      | inl ((t, some x), c) ↦
          let same_state : t ≡ s' = ground arith in
          let rest_left : l ≡ l' = ground arith in
          (subst I same_state (keeps s t f (some x) i q.0 c), subst (All Q) rest_left q.1)
    ]

-- Every frame of every open transaction.
abbrev pub Holds {ι} : (Frame → Type ι) → TxStore → Type ι
Holds Q t = (tx : Bytes) (l : List Frame) → find t tx ≡ some l → All Q l

module _ {ι} (Q : Frame → Type ι) (t : TxStore) (tx : Bytes) where
  pub Holds-delete :
      Holds Q t → Holds Q (record { transactions = some (delete (or_made t.transactions) tx) })
  unfolding find
  Holds-delete q j l e = elim (Bool-cases (same tx j)) [
    | inl hit ↦ absurd (ground (arith, lookup-delete (or_made t.transactions) tx j))
    | inr miss ↦ q j l (ground (arith, lookup-delete (or_made t.transactions) tx j))
  ]

  pub Holds-insert :
      (k : List Frame)
      → All Q k
      → Holds Q t
      → Holds Q (record { transactions = some (insert (or_made t.transactions) tx k) })
  unfolding find
  Holds-insert k a q j l e = elim (Bool-cases (same tx j)) [
    | inl hit ↦
        let k_eq : k ≡ l = ground (arith, lookup-insert (or_made t.transactions) tx j k) in
        subst (All Q) k_eq a
    | inr miss ↦ q j l (ground (arith, lookup-insert (or_made t.transactions) tx j k))
  ]

pub commit-Inv {ℓ κ ι} :
    {S : Type ℓ} (I : S → Type κ) (Q : Frame → Type ι)
    (commit_func : S → Frame → OrPanic (S × Option ClientError))
    → ((s s' : S) (f : Frame) (e : Option ClientError)
        → I s
        → Q f
        → commit_func s f ≡ ok (s', e)
        → I s')
    → (t : TxStore) (tx : Bytes) (s : S) (t' : TxStore) (s' : S) (e : Option ClientError) → I s
    → Holds Q t
    → commit t tx commit_func s ≡ ok (t', s', e)
    → I s' × Holds Q t'
unfolding commit
commit-Inv I Q commit_func keeps t tx s t' s' e i q h = elim (Option-cases (find t tx)) [
  | inl n ↦
      let same_state : s ≡ s' = ground arith in
      let same_store : t ≡ t' = ground arith in (subst I same_state i, subst (Holds Q) same_store q)
  | inr (l, o) ↦ elim (Result-cases (commit_loop commit_func l s)) [
    | inr (p, c) ↦ absurd (ground arith)
    | inl ((l', d, none), c) ↦
        let (i', q') = commit_loop-Inv I Q commit_func keeps l s l' d none i (q tx l o) c in
        let same_state : d ≡ s' = ground arith in
        let store_eq : record { transactions = some (delete (or_made t.transactions) tx) } ≡ t' =
          ground arith in
        (subst I same_state i', subst (Holds Q) store_eq (Holds-delete Q t tx q))
    | inl ((l', d, some y), c) ↦
        let (i', q') = commit_loop-Inv I Q commit_func keeps l s l' d (some y) i (q tx l o) c in
        let same_state : d ≡ s' = ground arith in
        let store_eq : record { transactions = some (insert (or_made t.transactions) tx l') } ≡ t' =
          ground arith in
        (subst I same_state i', subst (Holds Q) store_eq (Holds-insert Q t tx l' q' q))
  ]
]
