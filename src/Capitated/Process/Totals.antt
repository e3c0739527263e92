-- ===== src/Capitated/Process/Totals.antt =====
-- The counters of _process_spreadsheet_rows against the monthly records.
use yastubo_python.Prelude.{
  ℕ, ◌+◌, ◌≡◌, subst, refl, sym, ap, ◌∙◌, Option, none, some, List, [], ◌∷◌, ◌++◌, Bool-cases, inl,
  inr, arith, length, length-append, All, Dict,
}
use mathlib.Core.List.{append_assoc, append-nil}
use yastubo_python.Capitated.Tables.{
  RowStatus, MonthlyRecord, Batch, Outcome, applied, rejected, duplicated, incongruence,
  RejectionCode,
}
use yastubo_python.Capitated.Session.{Session}
use yastubo_python.Capitated.Sheets.{Cells, SheetMeta, read_row, is_row_empty}
use yastubo_python.Capitated.Row.{Context, Input, Row, input_of}
use yastubo_python.Capitated.Process.{process_row, process_rows, Load, context_of, process_sheets}
use yastubo_python.Capitated.Counters.{Counters, count_result, count_code, count_row, log_row}
use yastubo_python.Capitated.Process.Frame.{frame, insert_item-frame}
use yastubo_python.Capitated.Process.Billing.{BilledAs, Billed, process_row-Billed}
use yastubo_python.Capitated.Frame.{
  Keeps, keeps_rules, Ensures, Ensures-bind, Ensures-after, ensured, Ensures-map,
}

-- Every row is counted once under its result.
abbrev pub IsBalanced : Counters → Type 0
IsBalanced c =
    c.total_rows ≡ c.total_applied + c.total_rejected + c.total_duplicated + c.total_incongruences

-- an active record of the batch and the company
abbrev pub IsLoaded : ℕ → ℕ → MonthlyRecord → Type 0
IsLoaded company_id batch_id r =
    (r.company_id ≡ company_id) × (r.load_batch_id ≡ batch_id) × (r.status ≡ RowStatus.active)

-- What a part of the load did, from counters `c` and session `s` to `c'` and `s'`: it added records
-- of the batch, as many as it counted applied rows, and it left the batch alone.
pub record Loads (company_id : ℕ) (c : Counters) (s : Session) (c' : Counters) (s' : Session)
    : Type 0 where
  pub new : List MonthlyRecord
  pub appended : s'.records ≡ s.records ++ new
  pub counted : c'.total_applied ≡ c.total_applied + length new
  pub loaded : All (IsLoaded company_id s.batch.id) new
  pub batch : s'.batch ≡ s.batch
  pub balanced : IsBalanced c → IsBalanced c'

All-append :
    (k b : ℕ) (xs ys : List MonthlyRecord)
    → All (IsLoaded k b) xs
    → All (IsLoaded k b) ys
    → All (IsLoaded k b) (xs ++ ys)
All-append k b [] ys h g = g
All-append k b (x ∷ xs) ys h g = (h.0, All-append k b xs ys h.1 g)

Loads-none : (k : ℕ) (c : Counters) (s t : Session) → frame t ≡ frame s → Loads k c s c t
Loads-none k c s t e = record {
  new = [];
  appended = ap (λ (q : List MonthlyRecord × Batch). q.0) e ∙ sym (append-nil s.records);
  counted = omega arith;
  loaded = tt;
  batch = ap (λ (q : List MonthlyRecord × Batch). q.1) e;
  balanced = λ h. h;
}

Loads-trans :
    (k : ℕ) (c d e : Counters) (s t u : Session)
    → Loads k c s d t
    → Loads k d t e u
    → Loads k c s e u
Loads-trans k c d e s t u a b = record {
  new = a.new ++ b.new;
  appended =
      b.appended
      ∙ ap (λ (l : List MonthlyRecord). l ++ b.new) a.appended
      ∙ append_assoc s.records a.new b.new;
  counted = omega (arith, a.counted, b.counted, length-append a.new b.new);
  loaded =
      All-append k s.batch.id a.new b.new a.loaded
        (subst (λ (z : Batch). All (IsLoaded k z.id) b.new) a.batch b.loaded);
  batch = b.batch ∙ a.batch;
  balanced = λ h. b.balanced (a.balanced h);
}

abbrev one_row : Outcome → Counters → Counters
one_row o c = count_result o (record c { total_rows = c.total_rows + 1 })

one_row-IsBalanced : (o : Outcome) (c : Counters) → IsBalanced c → IsBalanced (one_row o c)
one_row-IsBalanced applied c h = omega arith
one_row-IsBalanced rejected c h = omega arith
one_row-IsBalanced incongruence c h = omega arith
one_row-IsBalanced duplicated c h = omega arith

-- the codes are no part of the totals
count_code-IsBalanced :
    (k : Option RejectionCode) (c : Counters) → IsBalanced c → IsBalanced (count_code k c)
count_code-IsBalanced none c h = h
count_code-IsBalanced (some k) c h = h

count_code-applied :
    (k : Option RejectionCode) (c : Counters) → (count_code k c).total_applied ≡ c.total_applied
count_code-applied none c = refl
count_code-applied (some k) c = refl

kept_counts :
    (company_id : ℕ) (o : Outcome) (k : Option RejectionCode) (c : Counters) (s t : Session)
    → (one_row o c).total_applied ≡ c.total_applied
    → t.records ≡ s.records
    → t.batch ≡ s.batch
    → Loads company_id c s (count_code k (one_row o c)) t
kept_counts company_id o k c s t a n e = record {
  new = [];
  appended = n ∙ sym (append-nil s.records);
  counted = omega (arith, a, count_code-applied k (one_row o c));
  loaded = tt;
  batch = e;
  balanced = λ h. count_code-IsBalanced k (one_row o c) (one_row-IsBalanced o c h);
}

billed_counts :
    (x : Context) (o : Outcome) (k : Option RejectionCode) (row : Row) (c : Counters)
    (s t : Session)
    → BilledAs o x row s t
    → t.batch ≡ s.batch
    → Loads x.company_id c s (count_code k (one_row o c)) t
billed_counts x applied k row c s t n e = record {
  new = n.new ∷ [];
  appended = n.appended;
  counted = omega (arith, count_code-applied k (one_row applied c));
  loaded = ((n.company_id, n.batch_id, n.is_active), tt);
  batch = e;
  balanced = λ h. count_code-IsBalanced k (one_row applied c) (one_row-IsBalanced applied c h);
}
billed_counts x rejected k row c s t n e = kept_counts x.company_id rejected k c s t refl n e
billed_counts x incongruence k row c s t n e =
    kept_counts x.company_id incongruence k c s t refl n e
billed_counts x duplicated k row c s t n e = kept_counts x.company_id duplicated k c s t refl n e

count_row-Loads :
    (x : Context) (row : Row) (c : Counters) (s t : Session)
    → Billed x s row t
    → Loads x.company_id c s (count_row row c) t
unfolding count_row
count_row-Loads x row c s t (n, e) = billed_counts x row.result row.rejection_code row c s t n e

pub log_row-frame : (x : Context) (k : ℕ) (i : Input) (row : Row) → Keeps frame (log_row x k i row)
unfolding log_row
log_row-frame x k i row = search (keeps_rules, insert_item-frame)

process_rows-Loads :
    (x : Context) (k : ℕ) (rows : List Cells) (c : Counters) (s : Session)
    → Ensures (Loads x.company_id c s) (process_rows x k rows c s)
unfolding process_rows
process_rows-Loads x k [] c s = Loads-none x.company_id c s s refl
process_rows-Loads x k (cells ∷ rest) c s =
    elim (Bool-cases (is_row_empty (read_row x.meta.columns cells))) [
      | inl e ↦ rw e (Loads-none x.company_id c s s refl)
      | inr e ↦ rw e (
          let i = input_of (read_row x.meta.columns cells) in
          Ensures-bind (Loads x.company_id c s) (process_row x i) _ s (λ row t et.
            Ensures-after (Loads x.company_id c s) (log_row x k i row) _ t (log_row-frame x k i row)
              (λ _ u eu.
                Ensures-map (Loads x.company_id (count_row row c) u) (Loads x.company_id c s) _
                  (λ c' v l.
                    Loads-trans x.company_id c (count_row row c) c' s t v
                      (count_row-Loads x row c s t (
                        ensured (Billed x s) (process_row x i s) row t (process_row-Billed x i s)
                          et))
                      (Loads-trans x.company_id (count_row row c) (count_row row c) c' t u v
                        (Loads-none x.company_id (count_row row c) t u eu) l))
                  (process_rows-Loads x (k + 1) rest (count_row row c) u))))
    ]

pub process_sheets-Loads :
    (l : Load) (metas : Dict SheetMeta) (c : Counters) (s : Session)
    → Ensures (Loads l.company.id c s) (process_sheets l metas c s)
unfolding process_sheets
process_sheets-Loads l [] c s = Loads-none l.company.id c s s refl
process_sheets-Loads l ((name, meta) ∷ rest) c s =
    let x = context_of l name meta in
    Ensures-bind (Loads l.company.id c s) (process_rows x 2 meta.sheet.rows c) _ s (λ d t et.
      Ensures-map (Loads l.company.id d t) (Loads l.company.id c s) _
        (λ e u b.
          Loads-trans l.company.id c d e s t u
            (ensured (Loads l.company.id c s) (process_rows x 2 meta.sheet.rows c s) d t
              (process_rows-Loads x 2 meta.sheet.rows c s) et)
            b)
        (process_sheets-Loads l rest d t))
