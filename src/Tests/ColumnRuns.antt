-- ===== src/Tests/ColumnRuns.antt =====
-- internal/store: the columns of a concrete watch.
use scootless.Base.{◌≡◌, refl, String, List, [], ◌∷◌, Option, none, some, ok}
use scootless.Tests.Data.{arrival_watch}
use scootless.Store.Watches.{row_of, scan_watch}
use scootless.Store.Columns.{Json, Columns, write_watch, read_watch, read-write_watch}

-- Lists of one text, each as that text.
abbrev lone : List String → Option String
lone (s ∷ []) = some s
lone _ = none

abbrev json : Json
json = record { marshal = lone; unmarshal = λ s. some (s ∷ []) }

read-write_watch_example :
    (c : Columns) × (write_watch json arrival_watch ≡ ok c)
    × (read_watch json c ≡ ok (scan_watch (row_of arrival_watch)))
read-write_watch_example =
    read-write_watch json arrival_watch ("ryde", refl, refl, refl)
      ("YRY:Vehicle:ea123456-a", refl, refl, refl) refl
