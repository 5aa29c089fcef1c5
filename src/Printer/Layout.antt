-- ===== src/Printer/Layout.antt =====
-- What a printed receipt shows: `buildReceipt` of modules/printer/printer.service.ts.
use mathlib.Core.List as Lists
use salepoint_backend.Prelude.{
  ℕ, ◌≡◌, refl, ap, ◌∙◌, inl, inr, false, List, [], ◌∷◌, ◌++◌, map, String, ltb, Bool-cases,
}
use salepoint_backend.Entities.{Order}
use salepoint_backend.Printer.Receipt.{
  Relations, println, PrinterConfig, if_positive, dashes, header_lines, meta_lines, item_row,
  item_lines, total_lines, balance_lines, payment_lines, footer_lines, build_receipt, change_of,
}
use salepoint_backend.Printer.Parts.{
  tables, bold_after, Shows, append-Shows, IsText-Shows, if_positive-IsText, items-Shows,
  header_lines-Shows, meta_lines-Shows, item_cells,
}

abbrev pub column_names : List String
column_names = "Item" ∷ "Qty" ∷ "Price" ∷ "Total" ∷ []

text-Shows : (n : ℕ) (line : String) → Shows [] (if_positive n (println line ∷ []))
text-Shows n line = IsText-Shows (if_positive n (println line ∷ [])) (if_positive-IsText n line)

item_lines-Shows :
    (rel : Relations) (o : Order)
    → Shows (column_names ∷ (map (item_cells rel) o.items ++ [])) (item_lines rel o)
unfolding item_lines tables bold_after
item_lines-Shows rel o =
    let tail =
      append-Shows (map (item_cells rel) o.items) [] (map (item_row rel) o.items)
        (println dashes ∷ []) (items-Shows rel o.items)
        (record { shown = refl; plain_end = refl }) in
    record { shown = ap (λ t. column_names ∷ t) tail.shown; plain_end = tail.plain_end }

total_lines-Shows : (o : Order) → Shows [] (total_lines o)
unfolding total_lines tables bold_after
total_lines-Shows o =
    let tail = append-Shows [] [] _ _ (text-Shows o.tax_amount _) (
      append-Shows [] [] _ _ (text-Shows o.discount_amount _)
        (record { shown = refl; plain_end = refl })) in
    record { shown = tail.shown; plain_end = tail.plain_end }

balance_lines-Shows : (o : Order) → Shows [] (balance_lines o)
unfolding balance_lines tables bold_after
balance_lines-Shows o = elim (Bool-cases (ltb 0 o.not_paid)) [
  | inl owes ↦ rw owes (record { shown = refl; plain_end = refl })
  | inr settled ↦ rw settled (text-Shows (change_of o) _)
]

payment_lines-Shows : (o : Order) → Shows [] (payment_lines o)
unfolding payment_lines
payment_lines-Shows o =
    append-Shows [] [] _ _ (text-Shows o.paid_by_cash _)
      (append-Shows [] [] _ _ (text-Shows o.paid_by_card _) (balance_lines-Shows o))

footer-Shows : Shows [] footer_lines
unfolding tables bold_after
footer-Shows = record { shown = refl; plain_end = refl }

-- A receipt shows one table row for each item of the order, in order and under the names of the columns, and no other, and it leaves the printer in plain type.
pub build_receipt-IsItemised :
    (cfg : PrinterConfig) (rel : Relations) (date : String) (o : Order)
    → (tables (build_receipt cfg rel date o) ≡ column_names ∷ map (item_cells rel) o.items)
      × (bold_after false (build_receipt cfg rel date o) ≡ false)
unfolding build_receipt
build_receipt-IsItemised cfg rel date o =
    let whole = append-Shows [] _ (header_lines cfg) _ (header_lines-Shows cfg) (
      append-Shows [] _ (meta_lines rel date o) _ (meta_lines-Shows rel date o) (
        append-Shows _ [] (item_lines rel o) _ (item_lines-Shows rel o) (
          append-Shows [] [] (total_lines o) _ (total_lines-Shows o) (
            append-Shows [] [] (payment_lines o) footer_lines (payment_lines-Shows o)
              footer-Shows)))) in
    (
      whole.shown ∙ ap (λ t. column_names ∷ t) (rw (Lists.append-nil, Lists.append-nil)),
      whole.plain_end,
    )
