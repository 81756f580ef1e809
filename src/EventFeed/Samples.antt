-- ===== src/EventFeed/Samples.antt =====
-- A feed of two system events and a diagnostic.
use mathlib.Core.List.{Perm}
use deepagent_shell.Prelude.{
  ◌≤◌, String, Bool, [], ◌∷◌, keep, length, if◌then◌else◌, ◌==◌, string_eq, ◌≡◌, refl, arith, map,
}
use deepagent_shell.EventFeed.{
  Entry, event, foreign, Filters, Feed, listed, list_events, delete_matching, has_source,
  public_items, public_records, sort_items, insert_item, key_lt,
}
use deepagent_shell.EventFeed.Matching.{stays, other_entries, delete_matching-listed}
use deepagent_shell.EventFeed.Pages.{pages_to, list_events-pages}

-- A search that looks for the whole text.
abbrev whole : String → String → Bool
whole needle text = needle == text

abbrev warning : Entry
warning = record { id = "w"; occurred_at = 5; level = "warning"; text = "w" }

abbrev info : Entry
info = record { id = "i"; occurred_at = 9; level = "info"; text = "i" }

abbrev sample_feed : Feed
sample_feed = record {
  system = event info ∷ foreign "not json" ∷ event warning ∷ [];
  runtime = record { id = "d"; occurred_at = 7; level = "warning"; text = "d" } ∷ [];
}

abbrev all_times : Filters
all_times = record { started_at = 0; ended_at = 9; sources = []; levels = []; needle = "" }

abbrev warnings : Filters
warnings = record all_times { levels = "warning" ∷ [] }

-- The newest item stands first.
newest_first :
    map (λ item. item.id) (sort_items (listed whole all_times sample_feed)) ≡ "i" ∷ "d" ∷ "w" ∷ []
unfolding sort_items insert_item key_lt listed public_items public_records
newest_first = refl

delete_matching-listed_example :
    ((delete_matching whole warnings sample_feed).0 ≡ length (listed whole warnings sample_feed))
    × (listed whole warnings (delete_matching whole warnings sample_feed).1 ≡ [])
    × ((delete_matching whole warnings sample_feed).1.system ≡ (
        if has_source warnings "system"
        then keep (stays whole warnings) sample_feed.system
        else sample_feed.system))
    × ((delete_matching whole warnings sample_feed).1.runtime ≡ (
        if has_source warnings "runtime"
        then other_entries whole warnings sample_feed.runtime
        else sample_feed.runtime))
delete_matching-listed_example = delete_matching-listed whole warnings sample_feed

list_events-pages_example :
    Perm
      (pages_to
        (list_events whole 1 2 all_times sample_feed).pages
        (λ p. (list_events whole p 2 all_times sample_feed).items))
      (listed whole all_times sample_feed)
    × (length (list_events whole 1 2 all_times sample_feed).items ≤ 2)
    × ((list_events whole 1 2 all_times sample_feed).total
        ≡ length (listed whole all_times sample_feed))
list_events-pages_example = list_events-pages whole 2 all_times sample_feed (omega arith) 1
