-- ===== src/Tokenomics/Tests.antt =====
-- squids/tokenomics/src/handlers.ts: runs of the transfer handler on concrete logs.
use autonolas_subgraph.Prelude.{ℕ, ◌≡◌, ◌↔◌, refl, [], ◌∷◌, ◌++◌, some, arith}
use autonolas_subgraph.Prelude.Equality.{nat_eq, pair_eq}
use autonolas_subgraph.Prelude.Int.{pos, ◌+ℤ◌, ◌-ℤ◌}
use autonolas_subgraph.Prelude.Table.{get, set, sum_by, value_at}
use autonolas_subgraph.Prelude.Result.{ok, throw}
use autonolas_subgraph.Tokenomics.{
  Meta, Params, State, negative_balance, get_or_create_token, get_or_create_holder, or_token,
  or_holder, move_supply, debit, credit, transfer_row, handle_transfer, run,
}
use autonolas_subgraph.Tokenomics.Sums.{balance_at}
use autonolas_subgraph.Tokenomics.Laws
use autonolas_subgraph.Tokenomics.Overdraft

program : Unit {0}
unfolding get set sum_by value_at get_or_create_token get_or_create_holder or_token or_holder
    move_supply debit credit transfer_row handle_transfer run ◌+ℤ◌ ◌-ℤ◌
program = tt

abbrev meta : ℕ → Meta
meta i = record { block_number = 7; block_timestamp = 90; tx_hash = 5; log_index = i; address = 9 }

abbrev mint : Params
mint = record { from = 0; to = 1; amount = 100 }

abbrev pay : Params
pay = record { from = 1; to = 2; amount = 40 }

abbrev empty : State
empty = record { transfers = []; tokens = []; holders = [] }

abbrev minted : State
minted = record {
  transfers =
      (
        (5, 0),
        record {
          from = 0;
          to = 1;
          value = 100;
          block_number = 7;
          block_timestamp = 90;
          transaction_hash = 5;
        },
      )
      ∷ [];
  tokens = (9, record { balance = pos 100; holder_count = pos 1 }) ∷ [];
  holders = (1, record { token = 9; balance = pos 100 }) ∷ [];
}

abbrev paid : State
paid = record {
  transfers =
      minted.transfers
      ++ (
        (5, 1),
        record {
          from = 1;
          to = 2;
          value = 40;
          block_number = 7;
          block_timestamp = 90;
          transaction_hash = 5;
        },
      )
        ∷ [];
  tokens = (9, record { balance = pos 100; holder_count = pos 2 }) ∷ [];
  holders =
      (1, record { token = 9; balance = pos 60 })
      ∷ (2, record { token = 9; balance = pos 40 })
      ∷ [];
}

run-mint : handle_transfer empty (meta 0) mint ≡ ok minted
unfolding program
run-mint = refl

run-pay : handle_transfer minted (meta 1) pay ≡ ok paid
unfolding program
run-pay = refl

empty-IsLedger : Laws.IsLedger 9 empty
unfolding program
empty-IsLedger = record { supply = refl; count = refl; nonneg = λ k. omega arith }

minted-IsLedger : Laws.IsLedger 9 minted
minted-IsLedger =
    Laws.handle_transfer-IsLedger empty (meta 0) mint (λ h. absurd (omega (arith, h.1)))
      empty-IsLedger run-mint

handle_transfer-IsLedger_example : Laws.IsLedger 9 paid
handle_transfer-IsLedger_example =
    Laws.handle_transfer-IsLedger minted (meta 1) pay (λ h. absurd (omega (arith, h.1)))
      minted-IsLedger run-pay

run-IsLedger_example : Laws.IsLedger 9 paid
unfolding program
run-IsLedger_example =
    Laws.run-IsLedger 9 ((meta 0, mint) ∷ (meta 1, pay) ∷ []) empty
      (refl, λ h. absurd (omega (arith, h.1)), (refl, λ h. absurd (omega (arith, h.1)), tt))
      empty-IsLedger refl

handle_transfer-moved_example :
    (balance_at 2 paid.holders ≡ Laws.moved pay 2 (balance_at 2 minted.holders))
    × (get (5, 1) paid.transfers ≡ some (transfer_row (meta 1) pay))
handle_transfer-moved_example = Laws.handle_transfer-moved minted (meta 1) pay 2 run-pay

handle_transfer-covered_example : (s : State) × (handle_transfer minted (meta 1) pay ≡ ok s)
unfolding program
handle_transfer-covered_example =
    Laws.handle_transfer-covered minted (meta 1) pay (λ _. omega arith)

-- A payment of the mint, and one that the recipient cannot cover.
abbrev too_much : Params
too_much = record { from = 2; to = 1; amount = 41 }

run-throws_iff_example :
    (run ((meta 0, mint) ∷ (meta 1, pay) ∷ (meta 2, too_much) ∷ []) empty
      ≡ throw (negative_balance 2 7))
    ↔ Overdraft.IsStopped
        ((meta 0, mint) ∷ (meta 1, pay) ∷ (meta 2, too_much) ∷ [])
        empty
        (negative_balance 2 7)
run-throws_iff_example =
    Overdraft.run-throws_iff ((meta 0, mint) ∷ (meta 1, pay) ∷ (meta 2, too_much) ∷ []) empty
      (negative_balance 2 7)

-- The last of the three stops the batch.
too_much_test :
    run ((meta 0, mint) ∷ (meta 1, pay) ∷ (meta 2, too_much) ∷ []) empty
    ≡ throw (negative_balance 2 7)
unfolding program
too_much_test = refl
