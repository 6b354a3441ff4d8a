-- ===== src/Report/Storage.antt =====
-- The storage of reports (report/storage/base.py), and the backend in memory
-- (report/storage/memory.py).
--
-- The clock is an argument. The order of the store is the one of `OrderedDict`, oldest entry first,
-- as in llm/cache.py. The lock makes each method one step.
pub mod Refinement
use haojie.Common.{
  ℕ, Bool, true, false, Option, none, some, String, List, [], ◌∷◌, max, if◌then◌else◌, Dict, lookup,
  insert, erase, is_some,
}
use haojie.Cache.{move_to_end, trim}

-- `C` is the type of contents.
pub record StoredObject (C : Type 0) : Type 0 where
  pub report_id : String
  pub content : C
  pub content_type : String
  pub checksum : String
  pub stored_at : ℕ
  pub backend : String
  pub metadata : Dict String

pub record MemoryStorage (C : Type 0) : Type 0 where
  pub capacity : ℕ
  pub store : Dict (StoredObject C)

module _ {C : Type 0} where
  unfoldable pub init : ℕ → MemoryStorage C
  init capacity = record { capacity = max 1 capacity; store = [] }

  abbrev pub object_of : String → C → String → String → Dict String → ℕ → StoredObject C
  object_of report_id content content_type checksum metadata now = record {
    report_id = report_id;
    content = content;
    content_type = content_type;
    checksum = checksum;
    stored_at = now;
    backend = "memory";
    metadata = metadata;
  }

  unfoldable pub put :
      String → C → String → String → Dict String → ℕ → MemoryStorage C → MemoryStorage C
  unfolding move_to_end trim
  put report_id content content_type checksum metadata now m =
      let obj = object_of report_id content content_type checksum metadata now in
      record m { store = trim m.capacity (move_to_end report_id (insert report_id obj m.store)) }

  -- `none` is `ReportNotFoundError`.
  unfoldable pub get : String → MemoryStorage C → MemoryStorage C × Option (StoredObject C)
  unfolding move_to_end
  get report_id m = elim (lookup report_id m.store) [
    | none ↦ (m, none)
    | some obj ↦ (record m { store = move_to_end report_id m.store }, some obj)
  ]

  unfoldable pub exists : String → MemoryStorage C → Bool
  exists report_id m = is_some (lookup report_id m.store)

  unfoldable pub delete : String → MemoryStorage C → MemoryStorage C × Bool
  delete report_id m =
      (record m { store = erase report_id m.store }, is_some (lookup report_id m.store))
