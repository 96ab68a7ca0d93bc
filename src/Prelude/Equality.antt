-- ===== src/Prelude/Equality.antt =====
-- Keys of tables: what `===` on ids decides, for numbers and for tuples of keys.
use autonolas_subgraph.Prelude.{ℕ, ◌≡◌, ◌↔◌, Bool, true, ◌&&◌, arith, ◌==◌, ==_iff}

-- A type of keys: a test, which holds of a key and itself only.
pub record Key {κ} (K : Type κ) : Type κ where
  pub same : K → K → Bool
  pub same_iff : (j k : K) → (same j k ≡ true) ↔ (j ≡ k)

module _ {ι κ} {J : Type ι} {K : Type κ} where
  abbrev pub pair_same : Key J → Key K → J × K → J × K → Bool
  pair_same first second (j, k) (j', k') = first.same j j' && second.same k k'

  pub pair_same_iff :
      (first : Key J) (second : Key K) (p q : J × K) → (pair_same first second p q ≡ true) ↔ (p ≡ q)
  pair_same_iff first second (j, k) (j', k') =
      ground (arith, first.same_iff j j', second.same_iff k k')

  instance abbrev pub pair_eq : ⦃first : Key J⦄ ⦃second : Key K⦄ → Key (J × K)
  pair_eq ⦃first⦄ ⦃second⦄ = record {
    same = pair_same first second;
    same_iff = pair_same_iff first second;
  }

instance abbrev pub nat_eq : Key ℕ
nat_eq = record { same = λ a b. a == b; same_iff = ==_iff }
