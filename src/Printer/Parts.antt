-- ===== src/Printer/Parts.antt =====
-- The parts of a printed receipt: `buildReceipt` of modules/printer/printer.service.ts.
use salepoint_backend.Prelude.{
  ℕ, ◌≡◌, refl, ap, ◌∙◌, inl, inr, Bool, false, Option, none, some, List, [], ◌∷◌, ◌++◌, map,
  String, ltb, Bool-cases,
}
use salepoint_backend.Entities.{Order, OrderItem}
use salepoint_backend.Printer.Numbers.{fmt, fmt_qty}
use salepoint_backend.Printer.Receipt.{
  Relations, Command, bold, println, table, PrinterConfig, if_filled, if_named, if_positive, dashes,
  header_lines, meta_lines, item_row,
}

-- The cells of the tables among the calls, in order.
abbrev cells : Command → List (List String)
cells (table row) = row ∷ []
cells _ = []

unfoldable pub tables : List Command → List (List String)
tables [] = []
tables (c ∷ cs) = cells c ++ tables cs

-- Whether the printer is in bold type after the calls.
abbrev bold_next : Bool → Command → Bool
bold_next b (bold on) = on
bold_next b _ = b

unfoldable pub bold_after : Bool → List Command → Bool
bold_after b [] = b
bold_after b (c ∷ cs) = bold_after (bold_next b c) cs

tables-append : (xs ys : List Command) → tables (xs ++ ys) ≡ tables xs ++ tables ys
unfolding tables
tables-append [] ys = refl
tables-append (table row ∷ xs) ys = ap (λ t. row ∷ t) (tables-append xs ys)
tables-append (Command.align_center ∷ xs) ys = tables-append xs ys
tables-append (Command.align_left ∷ xs) ys = tables-append xs ys
tables-append (Command.align_right ∷ xs) ys = tables-append xs ys
tables-append (Command.draw_line ∷ xs) ys = tables-append xs ys
tables-append (Command.new_line ∷ xs) ys = tables-append xs ys
tables-append (Command.cut ∷ xs) ys = tables-append xs ys
tables-append (Command.text_normal ∷ xs) ys = tables-append xs ys
tables-append (Command.text_size ∷ xs) ys = tables-append xs ys
tables-append (bold on ∷ xs) ys = tables-append xs ys
tables-append (println t ∷ xs) ys = tables-append xs ys

bold_after-append :
    (b : Bool) (xs ys : List Command) → bold_after b (xs ++ ys) ≡ bold_after (bold_after b xs) ys
unfolding bold_after
bold_after-append b [] ys = refl
bold_after-append b (x ∷ xs) ys = bold_after-append (bold_next b x) xs ys

-- The optional lines hold no table and leave the type as it is.
pub record IsText (cs : List Command) : Type 0 where
  pub no_tables : tables cs ≡ []
  pub same_type : (b : Bool) → bold_after b cs ≡ b

if_filled-IsText : (s line : String) → IsText (if_filled s line)
unfolding tables bold_after
if_filled-IsText String.[] line = record { no_tables = refl; same_type = λ b. refl }
if_filled-IsText (String.◌∷◌ c s) line = record { no_tables = refl; same_type = λ b. refl }

if_named-IsText : (s : Option String) → IsText (if_named s)
unfolding tables bold_after
if_named-IsText none = record { no_tables = refl; same_type = λ b. refl }
if_named-IsText (some String.[]) = record { no_tables = refl; same_type = λ b. refl }
if_named-IsText (some (String.◌∷◌ c s)) = record { no_tables = refl; same_type = λ b. refl }

pub if_positive-IsText : (n : ℕ) (line : String) → IsText (if_positive n (println line ∷ []))
unfolding tables bold_after
if_positive-IsText n line = elim (Bool-cases (ltb 0 n)) [
  | inl some_amount ↦ rw some_amount (record { no_tables = refl; same_type = λ b. refl })
  | inr nothing ↦ rw nothing (record { no_tables = refl; same_type = λ b. refl })
]

-- A part of the receipt: what it shows in tables, and the type that it leaves after one that it is
-- entered in.
pub record Shows (rows : List (List String)) (cs : List Command) : Type 0 where
  pub shown : tables cs ≡ rows
  pub plain_end : bold_after false cs ≡ false

pub append-Shows :
    (rs qs : List (List String)) (xs ys : List Command)
    → Shows rs xs
    → Shows qs ys
    → Shows (rs ++ qs) (xs ++ ys)
append-Shows rs qs xs ys h k = record {
  shown = tables-append xs ys ∙ rw (h.shown, k.shown);
  plain_end = bold_after-append false xs ys ∙ rw h.plain_end k.plain_end;
}

pub IsText-Shows : (cs : List Command) → IsText cs → Shows [] cs
IsText-Shows cs h = record { shown = h.no_tables; plain_end = h.same_type false }

-- The cells of an item.
abbrev pub item_cells : Relations → OrderItem → List String
item_cells rel i =
    i.name ∷ fmt_qty (rel.unit_of i.product_id) i.quantity ∷ fmt i.price ∷ fmt i.line_total ∷ []

pub items-Shows :
    (rel : Relations) (items : List OrderItem)
    → Shows (map (item_cells rel) items) (map (item_row rel) items)
unfolding tables bold_after item_row
items-Shows rel [] = record { shown = refl; plain_end = refl }
items-Shows rel (i ∷ items) =
    let rest = items-Shows rel items in
    record { shown = ap (λ t. item_cells rel i ∷ t) rest.shown; plain_end = rest.plain_end }

pub header_lines-Shows : (cfg : PrinterConfig) → Shows [] (header_lines cfg)
unfolding header_lines tables bold_after
header_lines-Shows cfg =
    let tail =
      append-Shows [] [] (if_filled cfg.store_address cfg.store_address) _
        (IsText-Shows _ (if_filled-IsText cfg.store_address cfg.store_address))
        (append-Shows [] [] (if_filled cfg.store_phone cfg.store_phone) (Command.draw_line ∷ [])
          (IsText-Shows _ (if_filled-IsText cfg.store_phone cfg.store_phone))
          (record { shown = refl; plain_end = refl })) in
    record { shown = tail.shown; plain_end = tail.plain_end }

pub meta_lines-Shows :
    (rel : Relations) (date : String) (o : Order) → Shows [] (meta_lines rel date o)
unfolding meta_lines tables bold_after
meta_lines-Shows rel date o =
    let tail =
      append-Shows [] [] (if_named rel.customer_name) (println dashes ∷ [])
        (IsText-Shows _ (if_named-IsText rel.customer_name))
        (record { shown = refl; plain_end = refl }) in
    record { shown = tail.shown; plain_end = tail.plain_end }
