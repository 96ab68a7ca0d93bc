-- ===== src/Tokenomics/Sums.antt =====
-- squids/tokenomics/src/handlers.ts: what the two halves of the transfer handler do to the sum of
-- the holders' balances and to the number of holders with a positive balance.
use autonolas_subgraph.Prelude.{
  ℕ, ◌≡◌, ◌&&◌, false, Bool-cases, inl, inr, arith, ◌==◌, if◌then◌else◌,
}
use autonolas_subgraph.Prelude.Equality.{nat_eq}
use autonolas_subgraph.Prelude.Int.{ℤ, pos, ◌+ℤ◌, ◌-ℤ◌, ◌≤ℤ◌, ltb_ℤ, eqb_ℤ, int_laws}
use autonolas_subgraph.Prelude.Table.{Table, get, set, sum_by, sum_by-set, value_at}
use autonolas_subgraph.Prelude.Result.{ok}
use autonolas_subgraph.Tokenomics.{
  Address, zero_address, Meta, Params, Token, TokenHolder, debit, credit, or_holder,
  get_or_create_holder,
}

abbrev pub Holders : Type 0
Holders = Table Address TokenHolder

abbrev pub balance : TokenHolder → ℤ
balance h = h.balance

-- 1 for a holder with a positive balance.
abbrev pub is_holder : TokenHolder → ℤ
is_holder h = if ltb_ℤ (pos 0) h.balance then pos 1 else pos 0

-- The recorded balance of an address, 0 if it has no row.
abbrev pub balance_at : Address → Holders → ℤ
balance_at k hs = value_at balance (get k hs)

-- No recorded balance is negative.
abbrev pub IsNonneg : Holders → Type 0
IsNonneg hs = (k : Address) → pos 0 ≤ℤ balance_at k hs

abbrev pub sent : Params → ℤ
sent p = if p.from == zero_address then pos 0 else pos p.amount

abbrev pub received : Params → ℤ
received p = if p.to == zero_address then pos 0 else pos p.amount

-- What a half may do: the supply entry stays, the sum of the balances and the number of positive
-- balances move together with the entries of the token.
pub record Moves (hs : Holders) (t : Token) (out into : ℤ) (hs' : Holders) (t' : Token)
    : Type 0 where
  pub supply : t'.balance ≡ t.balance
  pub total : sum_by balance hs' +ℤ out ≡ sum_by balance hs +ℤ into
  pub count : t'.holder_count +ℤ sum_by is_holder hs ≡ t.holder_count +ℤ sum_by is_holder hs'

-- A row of `k` with the balance `b`.
abbrev pub with_balance : Address → Address → ℤ → Holders → TokenHolder
with_balance a k b hs = record (get_or_create_holder hs a k) { balance = b }

abbrev sign : ℤ → ℤ
sign b = if ltb_ℤ (pos 0) b then pos 1 else pos 0

pub holder-balance :
    (a k : Address) (hs : Holders) → (get_or_create_holder hs a k).balance ≡ balance_at k hs
unfolding get_or_create_holder or_holder value_at
holder-balance a k hs = ground arith

write-total :
    (a k : Address) (b : ℤ) (hs : Holders)
    → sum_by balance (set k (with_balance a k b hs) hs) +ℤ balance_at k hs ≡ sum_by balance hs +ℤ b
write-total a k b hs = sum_by-set balance k (with_balance a k b hs) hs

value_at-is_holder :
    (k : Address) (hs : Holders) → value_at is_holder (get k hs) ≡ sign (balance_at k hs)
unfolding value_at
value_at-is_holder k hs = ground arith

write-count :
    (a k : Address) (b : ℤ) (hs : Holders)
    → sum_by is_holder (set k (with_balance a k b hs) hs) +ℤ sign (balance_at k hs)
      ≡ sum_by is_holder hs +ℤ sign b
write-count a k b hs =
    rw (← value_at-is_holder k hs) (sum_by-set is_holder k (with_balance a k b hs) hs)

-- The count that a sender leaves: one less if its balance falls from above 0 to 0.
abbrev emptied : ℤ → ℕ → ℤ
emptied b n = if ltb_ℤ (pos 0) b && eqb_ℤ (b -ℤ pos n) (pos 0) then pos 1 else pos 0

sign-emptied :
    (b : ℤ) (n : ℕ)
    → pos 0 ≤ℤ b
    → ltb_ℤ (b -ℤ pos n) (pos 0) ≡ false
    → sign b ≡ sign (b -ℤ pos n) +ℤ emptied b n
unfolding ◌-ℤ◌ ◌+ℤ◌
sign-emptied b n h k = ground arith

count_arith :
    (h h' s s' x y e : ℤ) → h' +ℤ e ≡ h → x ≡ y +ℤ e → s' +ℤ x ≡ s +ℤ y → h' +ℤ s ≡ h +ℤ s'
count_arith h h' s s' x y e p q r = omega int_laws

module _ (m : Meta) (p : Params) (hs : Holders) (t : Token) where
  pub debit_writes :
      {hs' : Holders} {t' : Token}
      → (p.from == zero_address) ≡ false
      → debit m p (hs, t) ≡ ok (hs', t')
      → (hs'
          ≡ set p.from (with_balance m.address p.from (balance_at p.from hs -ℤ pos p.amount) hs) hs)
        × (t'.holder_count +ℤ emptied (balance_at p.from hs) p.amount ≡ t.holder_count)
        × (ltb_ℤ (balance_at p.from hs -ℤ pos p.amount) (pos 0) ≡ false)
  unfolding debit
  debit_writes f e =
      let b = holder-balance m.address p.from hs in
      (rw (← b) (ground arith), rw (← b) (grind int_laws), rw (← b) (ground arith))

  debit-count :
      {hs' : Holders} {t' : Token}
      → IsNonneg hs
      → debit m p (hs, t) ≡ ok (hs', t')
      → t'.holder_count +ℤ sum_by is_holder hs ≡ t.holder_count +ℤ sum_by is_holder hs'
  debit-count {hs'} {t'} n e = elim (Bool-cases (p.from == zero_address)) [
    | inl mint ↦ unfold debit in ground arith
    | inr no_mint ↦
        let (written, left, enough) = debit_writes {hs' = hs'} {t' = t'} no_mint e in
        rw written (
          count_arith _ _ _ _ _ _ _ left
            (sign-emptied (balance_at p.from hs) p.amount (n p.from) enough)
            (write-count m.address p.from (balance_at p.from hs -ℤ pos p.amount) hs))
  ]

  pub debit-Moves :
      {hs' : Holders} {t' : Token}
      → IsNonneg hs
      → debit m p (hs, t) ≡ ok (hs', t')
      → Moves hs t (sent p) (pos 0) hs' t'
  unfolding debit
  debit-Moves n e = record {
    supply = ground arith;
    total = grind (
      int_laws,
      holder-balance m.address p.from hs,
      write-total m.address p.from (balance_at p.from hs -ℤ pos p.amount) hs,
    );
    count = debit-count n e;
  }

  pub credit-Moves :
      IsNonneg hs → Moves hs t (pos 0) (received p) (credit m p (hs, t)).0 (credit m p (hs, t)).1
  unfolding credit
  credit-Moves n = record {
    supply = ground arith;
    total = grind (
      int_laws,
      holder-balance m.address p.to hs,
      write-total m.address p.to (balance_at p.to hs +ℤ pos p.amount) hs,
    );
    count = grind (
      int_laws,
      n p.to,
      holder-balance m.address p.to hs,
      write-count m.address p.to (balance_at p.to hs +ℤ pos p.amount) hs,
    );
  }
