-- ===== src/Tokenomics/Overdraft.antt =====
-- squids/tokenomics/src/handlers.ts: where a batch of transfers stops.
use autonolas_subgraph.Prelude.{
  ◌≡◌, ◌≢◌, refl, ap, subst, ◌∙◌, ◌⊎◌, ◌↔◌, List, [], ◌∷◌, ◌++◌, arith, ◌==◌, Bool-cases, inl, inr,
}
use autonolas_subgraph.Prelude.Int.{pos, ◌≤ℤ◌, leb_ℤ}
use autonolas_subgraph.Prelude.Result.{ok, throw, >>=-eq-ok, ok-injective}
use autonolas_subgraph.Tokenomics.{
  zero_address, Meta, Params, State, Error, negative_balance, handle_transfer, run,
}
use autonolas_subgraph.Tokenomics.Sums.{balance_at}
use autonolas_subgraph.Tokenomics.Laws.{
  IsCovered, handle_transfer-covered, handle_transfer-overdrawn,
}

-- A transfer of more than its sender, who is not the zero address, has.
abbrev pub IsOverdrawn : State → Params → Type 0
IsOverdrawn s p = (p.from ≢ zero_address) × (¬ (pos p.amount ≤ℤ balance_at p.from s.holders))

-- Every transfer is covered or overdrawn.
coverage : (s : State) (p : Params) → IsCovered s p ⊎ IsOverdrawn s p
coverage s p = elim (Bool-cases (p.from == zero_address)) [
  | inl mint ↦ inl (λ sender. absurd (ground arith))
  | inr no_mint ↦ elim (Bool-cases (leb_ℤ (pos p.amount) (balance_at p.from s.holders))) [
    | inl enough ↦ inl (λ sender. ground arith)
    | inr short ↦ inr (λ mint. ground arith, λ enough. ground arith)
  ]
]

-- Where a batch stops: at a transfer that is overdrawn in the state that the transfers before it leave.
pub record IsStopped (logs : List (Meta × Params)) (s : State) (why : Error) : Type 0 where
  pub before : List (Meta × Params)
  pub meta : Meta
  pub params : Params
  pub after : List (Meta × Params)
  pub state : State
  pub split : logs ≡ before ++ (meta, params) ∷ after
  pub went : run before s ≡ ok state
  pub overdrawn : IsOverdrawn state params
  pub reason : why ≡ negative_balance params.from meta.block_number

-- A batch runs to its end or stops.
run-cases :
    (logs : List (Meta × Params)) (s : State)
    → ((s' : State) × (run logs s ≡ ok s'))
      ⊎ ((why : Error) × (run logs s ≡ throw why) × IsStopped logs s why)
unfolding run
run-cases [] s = inl (s, refl)
run-cases ((m, p) ∷ logs) s = elim (coverage s p) [
  | inr over ↦
      let why = negative_balance p.from m.block_number in
      inr (
        why,
        rw (handle_transfer-overdrawn s m p over.0 over.1) refl,
        record {
          before = [];
          meta = m;
          params = p;
          after = logs;
          state = s;
          split = refl;
          went = refl;
          overdrawn = over;
          reason = refl;
        },
      )
  | inl covered ↦
      let (s1, first) = handle_transfer-covered s m p covered in
      elim (run-cases logs s1) [
        | inl (s', rest) ↦ inl (s', rw first rest)
        | inr (why, rest, stop) ↦ inr (
          why,
          rw first rest,
          record {
            before = (m, p) ∷ stop.before;
            meta = stop.meta;
            params = stop.params;
            after = stop.after;
            state = stop.state;
            split = ap (λ l. (m, p) ∷ l) stop.split;
            went = rw first stop.went;
            overdrawn = stop.overdrawn;
            reason = stop.reason;
          },
        )
      ]
]

run-append :
    (before rest : List (Meta × Params)) (s : State) {s' : State}
    → run before s ≡ ok s'
    → run (before ++ rest) s ≡ run rest s'
unfolding run
run-append [] rest s went = ap (run rest) (ok-injective went)
run-append ((m, p) ∷ before) rest s went =
    let (s1, first, later) = >>=-eq-ok (handle_transfer s m p) (λ x. run before x) went in
    rw first (run-append before rest s1 later)

stopped-throws :
    (logs : List (Meta × Params)) (s : State) (why : Error)
    → IsStopped logs s why
    → run logs s ≡ throw why
unfolding run
stopped-throws logs s why stop =
    let (sender, short) = stop.overdrawn in
    let last = handle_transfer-overdrawn stop.state stop.meta stop.params sender short in
    ap (λ l. run l s) stop.split
    ∙ run-append stop.before ((stop.meta, stop.params) ∷ stop.after) s stop.went
    ∙ rw (last, stop.reason) refl

-- A batch of transfers stops with an error exactly where there is an overdrawn transfer, up to which
-- every transfer goes through, and the error names the sender of that transfer and its block.
pub run-throws_iff :
    (logs : List (Meta × Params)) (s : State) (why : Error)
    → (run logs s ≡ throw why) ↔ IsStopped logs s why
run-throws_iff logs s why = (
  λ thrown. elim (run-cases logs s) [
    | inl (s', went) ↦ absurd (ground arith)
    | inr (why', thrown', stop) ↦
        let same : why' ≡ why = ground arith in subst (IsStopped logs s) same stop
  ],
  stopped-throws logs s why,
)
