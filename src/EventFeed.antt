-- ===== src/EventFeed.antt =====
-- server/src/agent_shell/event_feed.py: the management feed over the system log of security_events.py and the
-- runtime diagnostics. An entry is a public record as far as the filters read it: its time, its level, its id
-- and the case-folded JSON of the whole. `found needle text` is `needle in text`.
-- A time is one that parses and has a timezone; on any other the code raises a `ValueError`.
pub mod Matching
pub mod Pages
pub mod Samples
use Prim.Native.Nat.{Ordering}
use Prim.Native.String.{compare as str_compare}
use deepagent_shell.Prelude.{
  ℕ, zero, suc, ◌+◌, ◌-◌, ◌*◌, ◌/◌, String, Bool, true, false, not, ◌&&◌, ◌||◌, List, [], ◌∷◌, ◌++◌,
  contains, keep, length, take, drop, map, ltb, if◌then◌else◌, ◌==◌, string_eq,
}

pub record Entry : Type 0 where
  pub id : String
  pub occurred_at : ℕ
  pub level : String
  pub text : String

-- A line of the system log: an event that it knows, or any other line.
pub data Line : Type 0 where
  event : Entry → Line
  foreign : String → Line

-- The filters, the times in UTC and the needle case-folded.
pub record Filters : Type 0 where
  pub started_at : ℕ
  pub ended_at : ℕ
  pub sources : List String
  pub levels : List String
  pub needle : String

-- An item of the feed, without what is displayed of it.
pub record Item : Type 0 where
  pub id : String
  pub source : String
  pub occurred_at : ℕ
  pub level : String

pub record Feed : Type 0 where
  pub system : List Line
  pub runtime : List Entry

-- `_system_item` and `_runtime_item`
abbrev pub item_of : String → Entry → Item
item_of source entry = record {
  id = entry.id;
  source = source;
  occurred_at = entry.occurred_at;
  level = entry.level;
}

abbrev pub is_nil : {A : Type 0} → List A → Bool
is_nil [] = true
is_nil (a ∷ rest) = false

-- `SecurityEventLogger.public_records`
unfoldable pub public_records : List Line → List Entry
public_records [] = []
public_records (event entry ∷ lines) = entry ∷ public_records lines
public_records (foreign text ∷ lines) = public_records lines

-- `sources or set(_SOURCE_RANK)`
abbrev pub has_source : Filters → String → Bool
has_source filters source =
    if is_nil filters.sources
    then contains source ("system" ∷ "runtime" ∷ [])
    else contains source filters.sources

module _ (found : String → String → Bool) where
  -- `_public_items`
  unfoldable pub public_items : String → Filters → List Entry → List Item
  public_items source filters [] = []
  public_items source filters (entry ∷ entries) =
      let item = item_of source entry in
      let rest = public_items source filters entries in
      if ltb item.occurred_at filters.started_at || ltb filters.ended_at item.occurred_at
      then rest
      else (if not (is_nil filters.levels) && not (contains item.level filters.levels)
          then rest
          else (if not (filters.needle == "") && not (found filters.needle entry.text)
              then rest
              else item ∷ rest))

  -- `_public_record_matches`
  unfoldable pub public_record_matches : Filters → Entry → Bool
  public_record_matches filters entry =
      if ltb entry.occurred_at filters.started_at || ltb filters.ended_at entry.occurred_at
      then false
      else (if not (is_nil filters.levels) && not (contains entry.level filters.levels)
          then false
          else (filters.needle == "" || found filters.needle entry.text))

  -- The items of `list_events`, before they are sorted.
  unfoldable pub listed : Filters → Feed → List Item
  unfolding public_items public_records
  listed filters feed =
      (if has_source filters "system"
        then public_items "system" filters (public_records feed.system)
        else [])
      ++ (if has_source filters "runtime" then public_items "runtime" filters feed.runtime else [])

  -- The loop of `delete_public_records`: how many are deleted, and the lines retained.
  unfoldable pub delete_public_records : Filters → List Line → ℕ × List Line
  unfolding public_record_matches
  delete_public_records filters [] = (0, [])
  delete_public_records filters (foreign text ∷ lines) =
      let (deleted, retained) = delete_public_records filters lines in
      (deleted, foreign text ∷ retained)
  delete_public_records filters (event entry ∷ lines) =
      let (deleted, retained) = delete_public_records filters lines in
      if public_record_matches filters entry
      then (suc deleted, retained)
      else (deleted, event entry ∷ retained)

  -- `RuntimeDiagnosticsStore.delete_entries`
  unfoldable pub delete_entries : Filters → List Entry → ℕ × List Entry
  unfolding public_record_matches
  delete_entries filters entries = (
    length (keep (λ entry. public_record_matches filters entry) entries),
    keep (λ entry. not (public_record_matches filters entry)) entries,
  )

  unfoldable pub delete_matching : Filters → Feed → ℕ × Feed
  unfolding delete_public_records delete_entries
  delete_matching filters feed =
      let of_system : ℕ × List Line =
        if has_source filters "system"
        then delete_public_records filters feed.system
        else (0, feed.system) in
      let of_runtime : ℕ × List Entry =
        if has_source filters "runtime"
        then delete_entries filters feed.runtime
        else (0, feed.runtime) in
      (of_system.0 + of_runtime.0, record { system = of_system.1; runtime = of_runtime.1 })

-- `_SOURCE_RANK`
abbrev pub source_rank : String → ℕ
source_rank source = if source == "system" then 2 else 1

-- `x < y` on texts.
abbrev pub text_lt : String → String → Bool
text_lt x y = elim (str_compare x y) [ Ordering.lt ↦ true | _ ↦ false ]

-- `_key(x) < _key(y)`
unfoldable pub key_lt : Item → Item → Bool
key_lt x y =
    if ltb x.occurred_at y.occurred_at
    then true
    else (if ltb y.occurred_at x.occurred_at
        then false
        else (if ltb (source_rank x.source) (source_rank y.source)
            then true
            else (if ltb (source_rank y.source) (source_rank x.source)
                then false
                else text_lt x.id y.id)))

-- `items.sort(key=self._key, reverse=True)`, which keeps items of one key in their order.
unfoldable pub insert_item : Item → List Item → List Item
unfolding key_lt
insert_item x [] = x ∷ []
insert_item x (y ∷ items) =
    let rest = insert_item x items in if key_lt x y then y ∷ rest else x ∷ y ∷ items

unfoldable pub sort_items : List Item → List Item
unfolding insert_item
sort_items [] = []
sort_items (x ∷ items) = insert_item x (sort_items items)

-- `items[start:start + page_size]` for the page of number `page`, from 1 on.
unfoldable pub page_of : ℕ → ℕ → List Item → List Item
page_of page page_size items = take page_size (drop ((page - 1) * page_size) items)

unfoldable pub total_pages : ℕ → ℕ → ℕ
total_pages total page_size =
    let pages = (total + page_size - 1) / page_size in if ltb 1 pages then pages else 1

-- What `list_events` returns.
pub record EventPage : Type 0 where
  pub items : List Item
  pub total : ℕ
  pub pages : ℕ

unfoldable pub list_events : (String → String → Bool) → ℕ → ℕ → Filters → Feed → EventPage
unfolding listed sort_items page_of total_pages
list_events found page page_size filters feed =
    let items = sort_items (listed found filters feed) in
    record {
      items = page_of page page_size items;
      total = length items;
      pages = total_pages (length items) page_size;
    }
