-- ===== src/Inventory/Receive.antt =====
-- The operations that add stock: `addToStorage` and `returnToStorage`; and `adjust`.
use salepoint_backend.Prelude.{
  ℕ, ◌+◌, ◌≤◌, ◌<◌, ==_refl, ◌≡◌, ◌≢◌, refl, not, ◌&&◌, Option, none, some, List, [], ◌∷◌, ◌++◌,
  find_first, sum_by, inl, inr, Bool-cases, Option-cases, arith,
}
use salepoint_backend.Prelude.Int.{pos, ◌+ℤ◌, int_laws}
use salepoint_backend.Prelude.Table.{
  find_first-IsBelow, save, IsBelow, save-IsBelow, save-IsKeyed, IsBelow-mono, find_by_id-IsBelow,
  sum_by-save_new,
}
use salepoint_backend.Exec.{ok}
use salepoint_backend.Products.{product_of, is_piece, is_whole}
use salepoint_backend.Inventory.Defs.{
  Stock, StockLevel, StorageItem, StockMovement, level_key, batch_key, of_product, held, level_of,
  of_product_shop, insert_batch,
}
use salepoint_backend.Inventory.Service.{
  return_to_storage, returned_batch, received, upsert_stock_level,
}
use salepoint_backend.Inventory.Receiving.{
  Warehouse, AddStorageDto, received_batch, receive, add_to_storage,
}
use salepoint_backend.Inventory.Sound.{
  IsSafe, IsWritten, IsWritten-old, IsWritten-new, IsSound-write, IsCovered-write, level_in,
  on_hand_of, reserved_of, moved,
}

-- A batch that the database has given the key k.
abbrev pub keyed_by : ℕ → StorageItem → StorageItem
keyed_by k b = record b { id = k }

pub sum_by-insert :
    (q k : ℕ) (b : StorageItem) (batches : List StorageItem)
    → IsBelow batch_key k batches
    → sum_by (held q) (save batch_key (keyed_by k b) batches) ≡ sum_by (held q) batches + held q b
sum_by-insert q k b batches below =
    sum_by-save_new batch_key (held q) (keyed_by k b) batches
      (find_by_id-IsBelow batch_key k batches below)

-- A new batch of product p, a level raised by its quantity, and the movement of that quantity.
stock_received :
    (p k n : ℕ) (new : StockLevel) (b : StorageItem) (m : StockMovement) (s : Stock)
    → IsSafe s
    → IsWritten p new s.levels
    → b.product_id ≡ p
    → s.next_id ≤ k
    → k < n
    → new.id < n
    → new.quantity_reserved ≡ reserved_of (level_in p s.levels)
    → new.quantity_on_hand ≡ on_hand_of (level_in p s.levels) +ℤ pos b.quantity
    → m.product_id ≡ p
    → moved p m ≡ pos b.quantity
    → IsSafe (record {
      levels = save level_key new s.levels;
      batches = save batch_key (keyed_by k b) s.batches;
      movements = s.movements ++ (m ∷ []);
      next_id = n;
    })
stock_received p k n new b m s safe written product fresh bound level_bound reserved raised mp out =
    let sound = safe.sound in
    let below = IsBelow-mono batch_key s.next_id k s.batches fresh sound.batches_below in
    let sum = λ (q : ℕ). sum_by-insert q k b s.batches below in
    let more : sum_by (held p) (save batch_key (keyed_by k b) s.batches)
        ≡ sum_by (held p) s.batches + b.quantity =
      ground (arith, sum p) in
    let others : (q : ℕ)
        → p ≢ q
        → sum_by (held q) (save batch_key (keyed_by k b) s.batches) ≡ sum_by (held q) s.batches =
      λ q other. ground (arith, sum q) in
    record {
      sound =
          IsSound-write p new (save batch_key (keyed_by k b) s.batches) m n sound written
            level_bound
            (IsBelow-mono level_key s.next_id n s.levels (omega arith) sound.levels_below)
            (save-IsKeyed batch_key (keyed_by k b) s.batches sound.batches_keyed)
            (save-IsBelow batch_key n (keyed_by k b) s.batches bound
              (IsBelow-mono batch_key s.next_id n s.batches (omega arith) sound.batches_below))
            others mp (rw raised (rw (sound.counted p) (rw more (omega int_laws))))
            (rw raised (rw out));
      cover =
          IsCovered-write p new (save batch_key (keyed_by k b) s.batches) (s.movements ++ (m ∷ []))
            n safe.cover written others
            (rw reserved (rw more (omega (arith, safe.cover.covered p))));
    }

-- The level that `upsertStockLevel` creates.
abbrev new_level : ℕ → Option ℕ → Stock → StockLevel
new_level p shop s = record {
  id = s.next_id;
  shop_id = shop;
  product_id = p;
  quantity_on_hand = pos 0;
  quantity_reserved = 0;
  reorder_point = 5_000;
}

upsert_found :
    (p : ℕ) (shop : Option ℕ) (l : StockLevel) (s : Stock)
    → find_first (of_product_shop p shop) s.levels ≡ some l
    → upsert_stock_level p shop s ≡ (ok l, s)
unfolding upsert_stock_level
upsert_found p shop l s found = rw found

upsert_missing :
    (p : ℕ) (shop : Option ℕ) (s : Stock)
    → find_first (of_product_shop p shop) s.levels ≡ none
    → upsert_stock_level p shop s ≡ (ok (new_level p shop s), record s { next_id = s.next_id + 1 })
unfolding upsert_stock_level
upsert_missing p shop s missing = rw missing

-- `returnToStorage` keeps the stock tables safe; where the product has no level it adds one.
pub return_to_storage-IsSafe :
    (p n price r by : ℕ) (s : Stock) → IsSafe s → IsSafe (return_to_storage p n price r by s).1
unfolding return_to_storage
return_to_storage-IsSafe p n price r by s safe = elim (Option-cases (level_of p s)) [
  | inr (l, found) ↦ rw (upsert_found p none l s found) (
      stock_received p s.next_id (s.next_id + 1) (received l n)
        (returned_batch l.shop_id p n price r) _ s safe
        (IsWritten-old p l (received l n) s.levels safe.sound.levels_keyed found refl refl) refl
        (omega arith) (omega arith)
        (omega (
          arith,
          find_first-IsBelow level_key s.next_id (of_product p) s.levels l safe.sound.levels_below
              found,
        ))
        (rw found) (rw found) refl (rw (==_refl p)))
  | inl missing ↦ rw (upsert_missing p none s missing) (
      stock_received p (s.next_id + 1) (s.next_id + 1 + 1) (received (new_level p none s) n)
        (returned_batch none p n price r) _ s safe
        (IsWritten-new p (received (new_level p none s) n) s.levels missing
          (find_by_id-IsBelow level_key s.next_id s.levels safe.sound.levels_below) refl)
        refl (omega arith) (omega arith) (omega arith) (rw missing) (rw missing) refl
        (rw (==_refl p)))
]

-- The level of the product, if there is one, is that of the shop.
abbrev pub IsLevelOf : ℕ → ℕ → Stock → Type 0
IsLevelOf p shop s = (l : StockLevel) → level_in p s.levels ≡ some l → l.shop_id ≡ some shop

pub of_shop_found :
    (p shop : ℕ) (l : StockLevel) (levels : List StockLevel)
    → level_in p levels ≡ some l
    → l.shop_id ≡ some shop
    → find_first (of_product_shop p (some shop)) levels ≡ some l
of_shop_found p shop l [] found own = cc
of_shop_found p shop l (x ∷ xs) found own = ground (arith, of_shop_found p shop l xs, ==_refl shop)

pub of_shop_missing :
    (p shop : ℕ) (levels : List StockLevel)
    → level_in p levels ≡ none
    → find_first (of_product_shop p (some shop)) levels ≡ none
of_shop_missing p shop [] missing = refl
of_shop_missing p shop (x ∷ xs) missing = ground (arith, of_shop_missing p shop xs)

receive-IsSafe :
    (dto : AddStorageDto) (by shop : ℕ) (s : Stock)
    → IsSafe s
    → IsLevelOf dto.product_id shop s
    → IsSafe (receive dto by shop s).1
unfolding receive
receive-IsSafe dto by shop s safe own =
    let p = dto.product_id in
    let b : StorageItem = received_batch dto shop in
    let s' : Stock = insert_batch b s in
    elim (Option-cases (level_of p s)) [
      | inr (l, found) ↦
          rw (upsert_found p (some shop) l s' (of_shop_found p shop l s.levels found (own l found)))
            (stock_received p s.next_id (s.next_id + 1) (received l dto.quantity) b _ s safe
              (IsWritten-old p l (received l dto.quantity) s.levels safe.sound.levels_keyed found
                refl refl)
              refl (omega arith) (omega arith)
              (omega (
                arith,
                find_first-IsBelow level_key s.next_id (of_product p) s.levels l
                    safe.sound.levels_below found,
              ))
              (rw found) (rw found) refl (rw (==_refl p)))
      | inl missing ↦
          rw (upsert_missing p (some shop) s' (of_shop_missing p shop s.levels missing)) (
            stock_received p s.next_id (s.next_id + 1 + 1)
              (received (new_level p (some shop) s') dto.quantity) b _ s safe
              (IsWritten-new p (received (new_level p (some shop) s') dto.quantity) s.levels missing
                (find_by_id-IsBelow level_key (s.next_id + 1) s.levels (
                  IsBelow-mono level_key s.next_id (s.next_id + 1) s.levels (omega arith)
                    safe.sound.levels_below))
                refl)
              refl (omega arith) (omega arith) (omega arith) (rw missing) (rw missing) refl
              (rw (==_refl p)))
    ]

-- `addToStorage` keeps the stock tables safe, whether it returns or throws, if the product's level, where it has one, is a level of the shop.
pub add_to_storage-IsSafe :
    (dto : AddStorageDto) (by shop : ℕ) (w : Warehouse)
    → IsSafe w.stock
    → IsLevelOf dto.product_id shop w.stock
    → IsSafe (add_to_storage dto by shop w).1.stock
unfolding add_to_storage
add_to_storage-IsSafe dto by shop w safe own =
    let after = receive-IsSafe dto by shop w.stock safe own in
    elim (Option-cases (product_of dto.product_id (some shop) w.catalog)) [
      | inl missing ↦ rw missing safe
      | inr (product, found) ↦
          let bad = is_piece product.unit_type && not (is_whole dto.quantity) in
          rw found (elim (Bool-cases bad) [
            | inl broken ↦ rw broken safe
            | inr fits ↦ rw fits (ground (arith, after))
          ])
    ]
