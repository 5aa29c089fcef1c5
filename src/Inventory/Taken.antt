-- ===== src/Inventory/Taken.antt =====
-- What `deductFromStorage` takes from the batches of each product.
use salepoint_backend.Prelude.{
  ℕ, ◌+◌, ◌-◌, ◌≤◌, ltb, leb, leb→le, ==→eq, ◌==◌, ◌≡◌, true, false, if◌then◌else◌, inl, inr,
  Bool-cases, Option-cases, arith,
}
use salepoint_backend.Exec.{ok}
use salepoint_backend.Inventory.Defs.{Stock, stored, level_of}
use salepoint_backend.Inventory.Service.{deduct_from_storage, deduct_oldest}
use salepoint_backend.Inventory.Sound.{IsSound}
use salepoint_backend.Inventory.Deduct.{
  after_deduct, left_over_lem, sum_by-after_deduct, sum_by-after_deduct_other,
  deduct_from_storage_outcome, rounds_over,
}

module _ (p n r : ℕ) (s : Stock) (sound : IsSound s) where
  pub deduct_from_storage_ok :
      n ≤ stored p s → rounds_over p n s ≡ false → (deduct_from_storage p n r s).0 ≡ ok tt
  deduct_from_storage_ok enough exact =
      let test : leb n (stored p s) ≡ true = ground arith in
      rw (deduct_from_storage_outcome p n r s sound) (rw test (rw exact))

  pub deduct_from_storage_enough : (deduct_from_storage p n r s).0 ≡ ok tt → n ≤ stored p s
  deduct_from_storage_enough done =
      let outcome = deduct_from_storage_outcome p n r s sound in
      let test : leb n (stored p s) ≡ true = ground arith in leb→le n (stored p s) test

  pub batches_after :
      (deduct_from_storage p n r s).0 ≡ ok tt
      → (deduct_from_storage p n r s).1.batches ≡ after_deduct p n s.batches
  unfolding deduct_from_storage deduct_oldest
  batches_after done =
      let outcome = deduct_from_storage_outcome p n r s sound in
      let exact : rounds_over p n s ≡ false = ground arith in
      let enough = deduct_from_storage_enough done in
      let stop : ltb 0 (n - stored p s) ≡ false = ground arith in
      rw (left_over_lem p n s.batches sound.batches_keyed) (
        rw stop
          (rw exact (elim (Option-cases (level_of p s)) [ inl e ↦ rw e | inr (l, e) ↦ rw e ])))

  -- Where it returns, the product has lost the quantity, and no other product anything.
  pub deduct_from_storage-stored :
      (q : ℕ)
      → (deduct_from_storage p n r s).0 ≡ ok tt
      → stored q (deduct_from_storage p n r s).1 + (if p == q then n else 0) ≡ stored q s
  deduct_from_storage-stored q done =
      let enough = deduct_from_storage_enough done in
      rw (batches_after done) (elim (Bool-cases (p == q)) [
        | inl same ↦
            rw (← ==→eq p q same)
              (ground (arith, sum_by-after_deduct p n s.batches sound.batches_keyed))
        | inr other ↦ rw other (
            ground
              (arith, sum_by-after_deduct_other p n s.batches sound.batches_keyed q (ground arith)))
      ])
