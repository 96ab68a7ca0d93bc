-- ===== src/Pearl/Transfer/Booking.antt =====
-- squids/pearl-transactions/src/handlers.ts, `handleTransfer`: which balances a transfer moves.
use autonolas_subgraph.Prelude.{
  ℕ, ◌≡◌, refl, ap, ◌∙◌, ◌&&◌, ◌||◌, Bool, true, false, not, Option, some, arith, ◌==◌,
  if◌then◌else◌, Option-cases, inl, inr,
}
use autonolas_subgraph.Prelude.Equality.{nat_eq, pair_eq}
use autonolas_subgraph.Prelude.Int.{ℤ, pos, ◌+ℤ◌, ◌-ℤ◌, neg_ℤ, int_laws}
use autonolas_subgraph.Prelude.Table.{Table, get, value_at}
use autonolas_subgraph.Pearl.Model.{Address, Category, Meta, is_none}
use autonolas_subgraph.Pearl.Classify.{Input, Class, classify_transfer}
use autonolas_subgraph.Pearl.State.{State, Chain, TokenBalance}
use autonolas_subgraph.Pearl.Ledger.{
  upsert_token_balance, add_to_agent_funding_event, balance_of, upsert_token_balance-delta,
}
use autonolas_subgraph.Pearl.Transfer.{
  input_of, retag, mark_setup, fund_agent, is_credit, is_debit, is_master_to_agent, book,
  record_movement, apply_class, handle_transfer,
}
use autonolas_subgraph.Pearl.Transfer.Sides.{
  debits_sender, credits_recipient, Sides, classify-Sides, classify-no_sides,
}

abbrev pub amount_if : Bool → ℕ → ℤ
amount_if b n = if b then pos n else pos 0

token_balances-mark_setup :
    (s : State) (c : Category) (safe : Option Address)
    → (mark_setup s c safe).token_balances ≡ s.token_balances
unfolding mark_setup
token_balances-mark_setup s c safe = ground arith

module _ (chain : Chain) (s : State) (m : Meta) (from to : Address) (amount : ℕ) where
  token_balances-record :
      (c : Class) (category : Category) (token : Option Address)
      → (record_movement chain s m c category from to amount token).token_balances
        ≡ s.token_balances
  unfolding record_movement fund_agent add_to_agent_funding_event
  token_balances-record c category token =
      ground (arith, token_balances-mark_setup s category c.master_safe_id)

module _ (chain : Chain) (m : Meta) (from to : Address) (amount : ℕ) (token k t : Address) where
  at_from : Bool
  at_from = from == k && token == t

  at_to : Bool
  at_to = to == k && token == t

  step :
      (s : State) (safe : Address) (x : ℤ) (b : Bool)
      → balance_of (if b then upsert_token_balance chain s safe token x m true else s) k t
        ≡ balance_of s k t +ℤ (if b && (safe == k && token == t) then x else pos 0)
  step s safe x true = upsert_token_balance-delta chain s safe token x m k t
  step s safe x false = omega int_laws

  book_lem :
      (s : State) (c : Category) (sender : Bool)
      → balance_of (book chain s m c sender from to amount token) k t
        ≡ balance_of s k t
          +ℤ (if is_credit c && at_to then pos amount else pos 0)
          +ℤ (if is_debit c && at_from then neg_ℤ (pos amount) else pos 0)
          +ℤ (if is_master_to_agent c && at_to then pos amount else pos 0)
          +ℤ (if sender && at_from then neg_ℤ (pos amount) else pos 0)
  unfolding book at_from at_to
  book_lem s c sender = rw step (rw step (rw step (rw step refl)))

  two_if :
      (x y z at : Bool) (v : ℤ)
      → (x || y) ≡ z
      → (x && y) ≡ false
      → (if x && at then v else pos 0) +ℤ (if y && at then v else pos 0)
        ≡ (if z && at then v else pos 0)
  two_if true true z at v p q = absurd (ground arith)
  two_if x y z at v p q = grind int_laws

  regroup :
      (b c d c' d' x y : ℤ) → c +ℤ c' ≡ x → d +ℤ d' ≡ y → b +ℤ c +ℤ d +ℤ c' +ℤ d' ≡ b +ℤ x +ℤ y
  regroup b c d c' d' x y p q = omega int_laws

  neg_if : (z : Bool) → (if z then neg_ℤ (pos amount) else pos 0) ≡ pos 0 -ℤ amount_if z amount
  neg_if true = refl
  neg_if false = omega int_laws

  sub_of_add : (b x y : ℤ) → b +ℤ x +ℤ (pos 0 -ℤ y) ≡ b +ℤ x -ℤ y
  sub_of_add b x y = omega int_laws

  -- What the balances become under one class.
  book-Sides :
      (s : State) (i : Input) (c : Category) (sender : Bool)
      → Sides i c sender
      → balance_of (book chain s m c sender from to amount token) k t
        ≡ balance_of s k t
          +ℤ amount_if (credits_recipient i && at_to) amount
          -ℤ amount_if (debits_sender i && at_from) amount
  book-Sides s i c sender h =
      book_lem s c sender
      ∙ regroup _ _ _ _ _ _ _
          (two_if (is_credit c) (is_master_to_agent c) (credits_recipient i) at_to (pos amount)
            h.credit h.credit_once)
          (two_if (is_debit c) sender (debits_sender i) at_from (neg_ℤ (pos amount)) h.debit
            h.debit_once)
      ∙ rw neg_if (sub_of_add _ _ _)

apply_class-balances :
    (chain : Chain) (s : State) (m : Meta) (i : Input) (c : Class) (from to : Address) (amount : ℕ)
    (token k t : Address)
    → classify_transfer i ≡ some c
    → balance_of (apply_class chain s m c from to amount (some token)) k t
      ≡ balance_of s k t
        +ℤ amount_if (credits_recipient i && (to == k && token == t)) amount
        -ℤ amount_if (debits_sender i && (from == k && token == t)) amount
unfolding apply_class at_from at_to
apply_class-balances chain s m i c from to amount token k t e =
    let category = retag chain (some token) c.category in
    let sender = not (is_none c.sender_master_id) in
    let credit = amount_if (credits_recipient i && (to == k && token == t)) amount in
    let debit = amount_if (debits_sender i && (from == k && token == t)) amount in
    let s' = record_movement chain s m c category from to amount (some token) in
    book-Sides chain m from to amount token k t s' i category sender
      (classify-Sides chain (some token) i c e)
    ∙ ap
        (λ (b : Table (Address × Address) TokenBalance).
          value_at (λ r. r.balance) (get (k, t) b) +ℤ credit -ℤ debit)
        (token_balances-record chain s m from to amount c category (some token))

-- An ERC-20 transfer moves at most two balances of its token: the recipient's grows by the amount
-- exactly if `credits_recipient` holds of the two roles, the sender's falls by it exactly if
-- `debits_sender` does, each once, and no other balance changes.
pub handle_transfer-balances :
    (chain : Chain) (s : State) (m : Meta) (from to : Address) (amount : ℕ) (token k t : Address)
    → let i = input_of chain s from to in
      balance_of (handle_transfer chain s m from to amount (some token)) k t
      ≡ balance_of s k t
        +ℤ amount_if (credits_recipient i && (to == k && token == t)) amount
        -ℤ amount_if (debits_sender i && (from == k && token == t)) amount
unfolding handle_transfer
handle_transfer-balances chain s m from to amount token k t =
    let i = input_of chain s from to in
    elim (Option-cases (classify_transfer i)) [
      | inl dropped ↦
          let (no_credit, no_debit) = classify-no_sides chain (some token) i dropped in
          rw (dropped, handle_transfer) (rw (no_credit, no_debit) (omega int_laws))
      | inr (c, classified) ↦
          rw (classified, handle_transfer)
            (apply_class-balances chain s m i c from to amount token k t classified)
    ]
