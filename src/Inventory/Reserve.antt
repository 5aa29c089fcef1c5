-- ===== src/Inventory/Reserve.antt =====
-- `reserveStock` and `releaseStock`.
use salepoint_backend.Prelude.{
  ℕ, ◌+◌, ◌-◌, ◌≤◌, ltb, ◌≡◌, ◌↔◌, ◌<◌, ◌⊎◌, ◌*◌, ◌^◌, ◌||◌, ◌&&◌, not, refl, sym, ap, ◌∙◌, false,
  some, [], ◌∷◌, ◌++◌, sum_by, inl, inr, Bool-cases, Option-cases, arith, ◌==◌, ==→eq, ==_refl,
  if◌then◌else◌,
}
use salepoint_backend.Prelude.Int.{ℤ, pos, ◌-ℤ◌, ltb_ℤ, int_laws}
use salepoint_backend.Prelude.Table.{find_first-IsBelow, save}
use salepoint_backend.Double.Whole.{of_ratio_whole, sub_whole}
use salepoint_backend.Exec.{ok}
use salepoint_backend.Inventory.Defs.{
  Stock, StockLevel, StockMovement, level_key, of_product, held, level_of,
}
use salepoint_backend.Inventory.Service.{reserve_stock, release_stock, is_short, rounds_short}
use salepoint_backend.Inventory.Sound.{
  IsSound, IsCovered, IsSafe, IsWritten-old, IsSound-write, IsCovered-write, level_in, on_hand_of,
  reserved_of, moved,
}

-- What an invariant says of the level that a query found.
pub on_hand-found :
    (p : ℕ) (l : StockLevel) {s : Stock}
    → IsSound s
    → level_in p s.levels ≡ some l
    → l.quantity_on_hand ≡ pos (sum_by (held p) s.batches)
on_hand-found p l sound found = ap on_hand_of (sym found) ∙ sound.counted p

pub reserved-found :
    (p : ℕ) (l : StockLevel) {s : Stock}
    → IsCovered s
    → level_in p s.levels ≡ some l
    → l.quantity_reserved ≤ sum_by (held p) s.batches
reserved-found p l cover found = rw (ap reserved_of found) at (cover.covered p)

-- A level whose reservation alone is written, with a movement of no stock.
same_stock :
    (p n : ℕ) (old : StockLevel) (m : StockMovement) {s : Stock}
    → IsSafe s
    → level_in p s.levels ≡ some old
    → m.product_id ≡ p
    → moved p m ≡ pos 0
    → n ≤ sum_by (held p) s.batches
    → IsSafe (record s {
      levels = save level_key (record old { quantity_reserved = n }) s.levels;
      movements = s.movements ++ (m ∷ []);
    })
same_stock p n old m {s} safe found product still enough =
    let new : StockLevel = record old { quantity_reserved = n } in
    let sound = safe.sound in
    let written = IsWritten-old p old new s.levels sound.levels_keyed found refl refl in
    record {
      sound =
          IsSound-write p new s.batches m s.next_id sound written
            (find_first-IsBelow level_key s.next_id (of_product p) s.levels old sound.levels_below
              found)
            sound.levels_below sound.batches_keyed sound.batches_below (λ q _. refl) product
            (on_hand-found p old sound found) (rw found (rw still (omega int_laws)));
      cover =
          IsCovered-write p new s.batches (s.movements ++ (m ∷ [])) s.next_id safe.cover written
            (λ q _. refl) enough;
    }

available_lem : (h r n : ℕ) → ltb_ℤ (pos h -ℤ pos r) (pos n) ≡ ltb h (r + n)
unfolding ◌-ℤ◌
available_lem h r n = ground arith

room_left : (r n : ℕ) {h : ℕ} {z : ℤ} → z ≡ pos h → ltb_ℤ (z -ℤ pos r) (pos n) ≡ false → r + n ≤ h
room_left r n {h} whole room =
    let test : ltb h (r + n) ≡ false = sym (available_lem h r n) ∙ (rw whole at room) in
    ground arith

-- `reserveStock` keeps the stock tables safe, whether it returns or throws: on every product the level, the batches and the movements agree, and no more is reserved than the batches hold.
pub reserve_stock-IsSafe : (p n : ℕ) (s : Stock) → IsSafe s → IsSafe (reserve_stock p n s).1
unfolding reserve_stock
reserve_stock-IsSafe p n s safe = elim (Option-cases (level_of p s)) [
  | inl missing ↦ rw missing safe
  | inr (l, found) ↦
      let refused = is_short l.quantity_on_hand l.quantity_reserved n in
      let whole = on_hand-found p l safe.sound found in
      rw found (elim (Bool-cases refused) [
        | inl short ↦ rw short safe
        | inr room ↦ rw room (
            same_stock p (l.quantity_reserved + n) l _ safe found refl (ground arith)
              (room_left l.quantity_reserved n whole (ground (arith, room))))
      ])
]

more_left : (h r n : ℕ) → ltb_ℤ (pos n) (pos h -ℤ pos r) ≡ ltb (r + n) h
unfolding ◌-ℤ◌
more_left h r n = ground arith

-- The test in terms of what the batches hold.
is_short_held :
    (h r n : ℕ)
    → is_short (pos h) r n ≡ (ltb h (r + n) || (not (ltb (r + n) h) && rounds_short r n))
is_short_held h r n = rw (available_lem h r n) (rw (more_left h r n) refl)

reserve_stock-is_short :
    (p n : ℕ) (l : StockLevel) (s : Stock)
    → level_of p s ≡ some l
    → ((reserve_stock p n s).0 ≡ ok tt)
      ↔ (is_short l.quantity_on_hand l.quantity_reserved n ≡ false)
unfolding reserve_stock
reserve_stock-is_short p n l s found =
    rw found (elim (Bool-cases (is_short l.quantity_on_hand l.quantity_reserved n)) [
      | inl short ↦
          rw short ((λ done. absurd (ground (arith, done))), (λ e. absurd (ground (arith, e))))
      | inr room ↦ rw room ((λ _. refl), (λ _. refl))
    ])

-- In safe tables, for a product with a level, `reserveStock` succeeds exactly when what is reserved already and the quantity together are less than what the batches of the product hold, or just that much and the difference, in doubles, does not round below the quantity.
pub reserve_stock_iff :
    (p n : ℕ) (l : StockLevel) (s : Stock)
    → IsSafe s
    → level_of p s ≡ some l
    → ((reserve_stock p n s).0 ≡ ok tt) ↔ (
        (l.quantity_reserved + n < sum_by (held p) s.batches)
        ⊎ ((l.quantity_reserved + n ≡ sum_by (held p) s.batches)
            × (rounds_short l.quantity_reserved n ≡ false)))
reserve_stock_iff p n l s safe found =
    let h = sum_by (held p) s.batches in
    let r = l.quantity_reserved in
    let (there, back) = reserve_stock-is_short p n l s found in
    let test : is_short l.quantity_on_hand r n
        ≡ (ltb h (r + n) || (not (ltb (r + n) h) && rounds_short r n)) =
      ap (λ z. is_short z r n) (on_hand-found p l safe.sound found) ∙ is_short_held h r n in
    (λ done. decided h r n (sym test ∙ there done), λ room. back (test ∙ admitted h r n room))
  where
    decided :
        (h r n : ℕ)
        → (ltb h (r + n) || (not (ltb (r + n) h) && rounds_short r n)) ≡ false
        → (r + n < h) ⊎ ((r + n ≡ h) × (rounds_short r n ≡ false))
    decided h r n e = elim (Bool-cases (ltb (r + n) h)) [
      | inl less ↦ inl (ground (arith, less))
      | inr rest ↦ inr (ground (arith, e, rest))
    ]

    admitted :
        (h r n : ℕ)
        → (r + n < h) ⊎ ((r + n ≡ h) × (rounds_short r n ≡ false))
        → (ltb h (r + n) || (not (ltb (r + n) h) && rounds_short r n)) ≡ false
    admitted h r n (inl less) = ground (arith, less)
    admitted h r n (inr (same, e)) = ground (arith, same, e)

-- Of whole units, fewer than 2^53 of them, the doubles are exact.
rounds_short_whole : (a b : ℕ) → a + b < 2 ^ 53 → rounds_short (a * 1000) (b * 1000) ≡ false
unfolding rounds_short
rounds_short_whole a b small =
    let e : a * 1000 + b * 1000 ≡ (a + b) * 1000 = omega arith in
    rw e (
      rw (of_ratio_whole (a + b) small) (
        rw (of_ratio_whole a (omega arith))
          (rw (of_ratio_whole b (omega arith)) (rw (sub_whole (a + b) a small) (ground arith)))))

-- In safe tables, for a product with a level: where what is reserved already and the quantity are whole units, fewer than 2^53 of them, `reserveStock` succeeds exactly when both together do not pass what the batches of the product hold.
pub reserve_stock_whole :
    (p a b : ℕ) (l : StockLevel) (s : Stock)
    → IsSafe s
    → level_of p s ≡ some l
    → l.quantity_reserved ≡ a * 1000
    → a + b < 2 ^ 53
    → ((reserve_stock p (b * 1000) s).0 ≡ ok tt)
      ↔ (l.quantity_reserved + b * 1000 ≤ sum_by (held p) s.batches)
reserve_stock_whole p a b l s safe found whole small =
    let (there, back) = reserve_stock_iff p (b * 1000) l s safe found in
    let exact : rounds_short l.quantity_reserved (b * 1000) ≡ false =
      ap (λ r. rounds_short r (b * 1000)) whole ∙ rounds_short_whole a b small in
    (λ done. ground (arith, there done), λ fits. back (ground (arith, fits, exact)))

-- `releaseStock` keeps the stock tables safe, also where it releases more than is reserved.
pub release_stock-IsSafe : (p n : ℕ) (s : Stock) → IsSafe s → IsSafe (release_stock p n s).1
unfolding release_stock
release_stock-IsSafe p n s safe = elim (Option-cases (level_of p s)) [
  | inl missing ↦ rw missing safe
  | inr (l, found) ↦ rw found (
      same_stock p (l.quantity_reserved - n) l _ safe found refl (ground arith)
        (omega (arith, reserved-found p l safe.cover found)))
]

-- Where `reserveStock` returns, it has added the quantity to what is reserved of the product alone.
pub reserve_stock-reserved :
    (p n : ℕ) (s : Stock)
    → IsSound s
    → (reserve_stock p n s).0 ≡ ok tt
    → (q : ℕ)
    → reserved_of (level_in q (reserve_stock p n s).1.levels)
      ≡ reserved_of (level_in q s.levels) + (if p == q then n else 0)
unfolding reserve_stock
reserve_stock-reserved p n s sound done q = elim (Option-cases (level_of p s)) [
  | inl missing ↦ absurd (ground (arith, rw missing at done))
  | inr (l, found) ↦
      let refused = is_short l.quantity_on_hand l.quantity_reserved n in
      let new : StockLevel = record l { quantity_reserved = l.quantity_reserved + n } in
      let written = IsWritten-old p l new s.levels sound.levels_keyed found refl refl q in
      rw found (elim (Bool-cases refused) [
        | inl short ↦ absurd (ground (arith, rw short at (rw found at done)))
        | inr room ↦ rw room (
            rw written (elim (Bool-cases (p == q)) [
              | inl same ↦ rw (← ==→eq p q same) (rw (==_refl p) (rw found refl))
              | inr other ↦ rw other (omega arith)
            ]))
      ])
]

pub reserve_stock-batches : (p n : ℕ) (s : Stock) → (reserve_stock p n s).1.batches ≡ s.batches
unfolding reserve_stock
reserve_stock-batches p n s = elim (Option-cases (level_of p s)) [
  | inl missing ↦ rw missing refl
  | inr (l, found) ↦
      rw found (elim (Bool-cases (is_short l.quantity_on_hand l.quantity_reserved n)) [
        | inl short ↦ rw short refl
        | inr room ↦ rw room refl
      ])
]

-- `releaseStock` returns, and lowers what is reserved of the product alone, to 0 at the least.
pub release_stock-reserved :
    (p n : ℕ) (s : Stock)
    → IsSound s
    → ((release_stock p n s).0 ≡ ok tt)
      × ((q : ℕ)
          → reserved_of (level_in q (release_stock p n s).1.levels)
            ≡ reserved_of (level_in q s.levels) - (if p == q then n else 0))
unfolding release_stock
release_stock-reserved p n s sound = elim (Option-cases (level_of p s)) [
  | inl missing ↦ rw missing (
    refl,
    λ q. elim (Bool-cases (p == q)) [
      | inl same ↦ rw (← ==→eq p q same) (rw (==_refl p) (rw missing (omega arith)))
      | inr other ↦ rw other (omega arith)
    ],
  )
  | inr (l, found) ↦
      let new : StockLevel = record l { quantity_reserved = l.quantity_reserved - n } in
      rw found (
        refl,
        λ q.
            rw (IsWritten-old p l new s.levels sound.levels_keyed found refl refl q)
              (elim (Bool-cases (p == q)) [
                | inl same ↦ rw (← ==→eq p q same) (rw (==_refl p) (rw found refl))
                | inr other ↦ rw other (omega arith)
              ]),
      )
]

pub release_stock-batches : (p n : ℕ) (s : Stock) → (release_stock p n s).1.batches ≡ s.batches
unfolding release_stock
release_stock-batches p n s = elim (Option-cases (level_of p s)) [
  | inl missing ↦ rw missing refl
  | inr (l, found) ↦ rw found refl
]
