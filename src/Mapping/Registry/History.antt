-- ===== src/Mapping/Registry/History.antt =====
-- Any sequence of calls of the methods of `MappingRegistry` that change it, failing or not.
pub mod Laws
use db_sanitizer.Base.{ℕ, Bool, List, [], ◌∷◌}
use db_sanitizer.Base.Text.{Text}
use db_sanitizer.Mapping.Tables.{RunMetadata, GenerationStats}
use db_sanitizer.Mapping.Registry.{
  Registry, initialize, insert_source_key, insert_source_keys, record_generation_stats,
}
use db_sanitizer.Mapping.Registry.Assign.{Assignment, assign_replacements}
use db_sanitizer.Mapping.Registry.Accumulator.{Column, add, with_accumulator}

pub data Call : Type 0 where
  initialize_run : RunMetadata → Call
  insert_key : Text → Text → Call
  insert_keys : Text → List Text → Call
  assign : Text → List Assignment → Bool → Call
  record_stats : GenerationStats → Call
  add_work : Text → Column → List Text → Call

-- The registry after a call. A client that catches the error goes on with it.
unfoldable pub after : Call → Registry → Registry
after (initialize_run metadata) r = (initialize metadata r).1
after (insert_key g h) r = (insert_source_key g h r).1
after (insert_keys g hs) r = (insert_source_keys g hs r).1
after (assign g batch flag) r = (assign_replacements g batch flag r).1
after (record_stats stats) r = (record_generation_stats stats r).1
after (add_work g column values) r = (add g column values r).1

unfoldable pub after_all : List Call → Registry → Registry
unfolding after
after_all [] r = r
after_all (c ∷ calls) r = after_all calls (after c r)
