-- ===== src/Tokenomics/Laws.antt =====
-- squids/tokenomics/src/handlers.ts: the ledger's invariant, and what one transfer and a batch of
-- transfers do to it.
use autonolas_subgraph.Prelude.{
  ℕ, sym, subst, some, true, false, ◌≡◌, ◌≢◌, refl, List, [], ◌∷◌, arith, ◌==◌, if◌then◌else◌,
  Bool-cases, inl, inr,
}
use autonolas_subgraph.Prelude.Equality.{nat_eq, pair_eq}
use autonolas_subgraph.Prelude.Int.{ℤ, pos, ◌+ℤ◌, ◌-ℤ◌, ◌≤ℤ◌, ltb_ℤ, int_laws}
use autonolas_subgraph.Prelude.Table.{get, set, get-set, get-set_self, sum_by, value_at}
use autonolas_subgraph.Prelude.Result.{ok, throw, >>=-eq-ok}
use autonolas_subgraph.Tokenomics.{
  Address, zero_address, Meta, Params, Token, State, negative_balance, or_token,
  get_or_create_token, move_supply, transfer_row, debit, credit, handle_transfer, run,
}
use autonolas_subgraph.Tokenomics.Sums.{
  Holders, balance, is_holder, balance_at, IsNonneg, sent, received, Moves, debit-Moves,
  credit-Moves, holder-balance, with_balance, debit_writes,
}

-- The balance of an address after a transfer, read off the event alone.
abbrev pub moved : Params → Address → ℤ → ℤ
moved p k b =
    b -ℤ (if k == p.from then sent p else pos 0) +ℤ (if k == p.to then received p else pos 0)

balance_at-set :
    (a j k : Address) (b : ℤ) (hs : Holders)
    → balance_at k (set j (with_balance a j b hs) hs) ≡ (if j == k then b else balance_at k hs)
unfolding value_at
balance_at-set a j k b hs = ground (arith, get-set j k (with_balance a j b hs) hs)

debit-balance :
    (m : Meta) (p : Params) (hs : Holders) (t : Token) (k : Address) {hs' : Holders} {t' : Token}
    → debit m p (hs, t) ≡ ok (hs', t')
    → balance_at k hs' ≡ balance_at k hs -ℤ (if k == p.from then sent p else pos 0)
debit-balance m p hs t k {hs'} {t'} e = elim (Bool-cases (p.from == zero_address)) [
  | inl mint ↦ unfold debit in grind int_laws
  | inr no_mint ↦
      let (written, _, _) = debit_writes m p hs t {hs' = hs'} {t' = t'} no_mint e in
      let row = balance_at-set m.address p.from k (balance_at p.from hs -ℤ pos p.amount) hs in
      rw (written, row) (grind int_laws)
]

credit-balance :
    (m : Meta) (p : Params) (hs : Holders) (t : Token) (k : Address)
    → balance_at k (credit m p (hs, t)).0
      ≡ balance_at k hs +ℤ (if k == p.to then received p else pos 0)
credit-balance m p hs t k = elim (Bool-cases (p.to == zero_address)) [
  | inl burn ↦ unfold credit in grind int_laws
  | inr no_burn ↦
      let row = balance_at-set m.address p.to k (balance_at p.to hs +ℤ pos p.amount) hs in
      unfold credit in grind (int_laws, row, holder-balance m.address p.to hs)
]

-- What the handler does once the sender's half has gone through.
finish : State → Meta → Params → Holders × Token → State
finish s m p d = record {
  transfers = set (m.tx_hash, m.log_index) (transfer_row m p) s.transfers;
  tokens = set m.address (credit m p d).1 s.tokens;
  holders = (credit m p d).0;
}

-- A successful transfer comes from a successful debit.
handle_transfer-inversion :
    (s : State) (m : Meta) (p : Params) {s' : State}
    → handle_transfer s m p ≡ ok s'
    → (d : Holders × Token) × (debit m p
          (s.holders, move_supply p (get_or_create_token s m.address))
        ≡ ok d)
      × (s' ≡ finish s m p d)
unfolding handle_transfer finish
handle_transfer-inversion s m p e =
    let (d, debited, same) = >>=-eq-ok _ _ e in (d, debited, ground arith)

-- After a transfer that goes through, the balance of every address is the old one, less the
-- amount for the sender, more the amount for the recipient (a self-transfer changes nothing; the
-- zero address is never charged or credited), and the row of the event is stored under its hash
-- and log index.
pub handle_transfer-moved :
    (s : State) (m : Meta) (p : Params) {s' : State} (k : Address)
    → handle_transfer s m p ≡ ok s'
    → (balance_at k s'.holders ≡ moved p k (balance_at k s.holders))
      × (get (m.tx_hash, m.log_index) s'.transfers ≡ some (transfer_row m p))
unfolding finish
handle_transfer-moved s m p k e =
    let (d, debited, same) = handle_transfer-inversion s m p e in
    let t = move_supply p (get_or_create_token s m.address) in
    let out = debit-balance m p s.holders t k debited in
    rw same (
      rw (credit-balance m p d.0 d.1 k, out) refl,
      get-set_self (m.tx_hash, m.log_index) (transfer_row m p) s.transfers,
    )

-- A sender other than the zero address has to own the amount.
abbrev pub IsCovered : State → Params → Type 0
IsCovered s p = p.from ≢ zero_address → pos p.amount ≤ℤ balance_at p.from s.holders

left_nonneg : (b : ℤ) (n : ℕ) → pos n ≤ℤ b → ltb_ℤ (b -ℤ pos n) (pos 0) ≡ false
unfolding ◌-ℤ◌
left_nonneg b n h = ground arith

left_negative : (b : ℤ) (n : ℕ) → ¬ (pos n ≤ℤ b) → ltb_ℤ (b -ℤ pos n) (pos 0) ≡ true
unfolding ◌-ℤ◌
left_negative b n h = ground arith

debit-covered :
    (m : Meta) (p : Params) (hs : Holders) (t : Token)
    → (p.from ≢ zero_address → pos p.amount ≤ℤ balance_at p.from hs)
    → (d : Holders × Token) × (debit m p (hs, t) ≡ ok d)
unfolding debit
debit-covered m p hs t h = elim (Bool-cases (p.from == zero_address)) [
  | inl mint ↦ rw mint ((hs, t), refl)
  | inr no_mint ↦
      let b = holder-balance m.address p.from hs in
      let enough = left_nonneg (balance_at p.from hs) p.amount (h (ground arith)) in
      rw (no_mint, b, enough) (_, refl)
]

-- A transfer whose sender is the zero address or owns the amount always goes through.
pub handle_transfer-covered :
    (s : State) (m : Meta) (p : Params)
    → IsCovered s p
    → (s' : State) × (handle_transfer s m p ≡ ok s')
unfolding handle_transfer
handle_transfer-covered s m p h =
    let (d, e) = debit-covered m p s.holders (move_supply p (get_or_create_token s m.address)) h in
    rw e (_, refl)

-- A transfer of more than the recorded balance of its sender is refused.
pub handle_transfer-overdrawn :
    (s : State) (m : Meta) (p : Params)
    → p.from ≢ zero_address
    → ¬ (pos p.amount ≤ℤ balance_at p.from s.holders)
    → handle_transfer s m p ≡ throw (negative_balance p.from m.block_number)
unfolding handle_transfer debit
handle_transfer-overdrawn s m p sender short =
    let no_mint : (p.from == zero_address) ≡ false = ground arith in
    let b = holder-balance m.address p.from s.holders in
    let over = left_negative (balance_at p.from s.holders) p.amount short in
    rw (no_mint, b, over) refl

-- The ledger of the token `a`: its supply is the sum of all balances, its holder count is the
-- number of positive balances, and no balance is negative.
pub record IsLedger (a : Address) (s : State) : Type 0 where
  pub supply : (get_or_create_token s a).balance ≡ sum_by balance s.holders
  pub count : (get_or_create_token s a).holder_count ≡ sum_by is_holder s.holders
  pub nonneg : IsNonneg s.holders

move_supply_lem :
    (p : Params) (t : Token)
    → ¬ ((p.from ≡ zero_address) × (p.to ≡ zero_address))
    → ((move_supply p t).balance +ℤ sent p ≡ t.balance +ℤ received p)
      × ((move_supply p t).holder_count ≡ t.holder_count)
unfolding move_supply
move_supply_lem p t h = grind int_laws

debit-IsNonneg :
    (m : Meta) (p : Params) (hs : Holders) (t : Token) {hs' : Holders} {t' : Token}
    → IsNonneg hs
    → debit m p (hs, t) ≡ ok (hs', t')
    → IsNonneg hs'
debit-IsNonneg m p hs t {hs'} {t'} n e k = elim (Bool-cases (p.from == zero_address)) [
  | inl mint ↦ grind (int_laws, n k, debit-balance m p hs t k {hs' = hs'} {t' = t'} e)
  | inr no_mint ↦
      let (_, _, enough) = debit_writes m p hs t {hs' = hs'} {t' = t'} no_mint e in
      grind (int_laws, n k, debit-balance m p hs t k {hs' = hs'} {t' = t'} e)
]

credit-IsNonneg :
    (m : Meta) (p : Params) (hs : Holders) (t : Token)
    → IsNonneg hs
    → IsNonneg (credit m p (hs, t)).0
credit-IsNonneg m p hs t n k = grind (int_laws, n k, credit-balance m p hs t k)

token-finish :
    (s : State) (m : Meta) (p : Params) (d : Holders × Token)
    → get_or_create_token (finish s m p d) m.address ≡ (credit m p d).1
unfolding get_or_create_token or_token finish
token-finish s m p d = rw get-set_self

finish-IsLedger :
    (s : State) (m : Meta) (p : Params) (hs : Holders) (t t0 : Token)
    → (t0.balance +ℤ sent p ≡ (get_or_create_token s m.address).balance +ℤ received p)
      × (t0.holder_count ≡ (get_or_create_token s m.address).holder_count)
    → IsLedger m.address s
    → Moves s.holders t0 (sent p) (pos 0) hs t
    → Moves hs t (pos 0) (received p) (credit m p (hs, t)).0 (credit m p (hs, t)).1
    → IsNonneg hs
    → IsLedger m.address (finish s m p (hs, t))
finish-IsLedger s m p hs t t0 moves ledger d c n = record {
  supply = rw token-finish (unfold finish in omega int_laws);
  count = rw token-finish (unfold finish in omega int_laws);
  nonneg = unfold finish in credit-IsNonneg m p hs t n;
}

-- A transfer event of the token keeps the ledger, unless it goes from the zero address to itself:
-- the supply stays the sum of the balances, the holder count the number of positive balances, and
-- no balance becomes negative.
pub handle_transfer-IsLedger :
    (s : State) (m : Meta) (p : Params) {s' : State}
    → ¬ ((p.from ≡ zero_address) × (p.to ≡ zero_address))
    → IsLedger m.address s
    → handle_transfer s m p ≡ ok s'
    → IsLedger m.address s'
handle_transfer-IsLedger s m p h ledger e =
    let ((hs, t), debited, same) = handle_transfer-inversion s m p e in
    let t0 = move_supply p (get_or_create_token s m.address) in
    let n = debit-IsNonneg m p s.holders t0 ledger.nonneg debited in
    let d = debit-Moves m p s.holders t0 ledger.nonneg debited in
    let c = credit-Moves m p hs t n in
    let moves = move_supply_lem p (get_or_create_token s m.address) h in
    rw same (finish-IsLedger s m p hs t t0 moves ledger d c n)

-- Every log of a batch comes from the token `a`, and none goes from the zero address to itself.
abbrev pub AreLogsOf : Address → List (Meta × Params) → Type 0
AreLogsOf a [] = Unit {0}
AreLogsOf a ((m, p) ∷ logs) =
    (m.address ≡ a) × (¬ ((p.from ≡ zero_address) × (p.to ≡ zero_address))) × AreLogsOf a logs

-- A batch of the token's transfers, none from the zero address to itself, that runs to its end
-- keeps the ledger.
pub run-IsLedger :
    (a : Address) (logs : List (Meta × Params)) (s : State) {s' : State}
    → AreLogsOf a logs
    → IsLedger a s
    → run logs s ≡ ok s'
    → IsLedger a s'
unfolding run
run-IsLedger a [] s h ledger e = let same : s ≡ _ = ground arith in subst (IsLedger a) same ledger
run-IsLedger a ((m, p) ∷ logs) s h ledger e =
    let (s1, first, rest) = >>=-eq-ok _ _ e in
    let ledger' = subst (λ b. IsLedger b s) (sym h.0) ledger in
    let kept = handle_transfer-IsLedger s m p h.1 ledger' first in
    run-IsLedger a logs s1 h.2 (subst (λ b. IsLedger b s1) h.0 kept) rest
