-- ===== src/EventFeed/Matching.antt =====
-- event_feed.py: what is listed and what is deleted under the same filters.
use deepagent_shell.Prelude.{
  suc, String, Bool, true, not, List, [], ◌∷◌, keep, length, map, if◌then◌else◌, string_eq, ◌≡◌,
  refl, ◌∙◌, ap, arith, inl, inr, Bool-cases, length-append,
}
use deepagent_shell.EventFeed.{
  Entry, Line, event, foreign, Filters, Feed, item_of, public_records, has_source, public_items,
  public_record_matches, listed, delete_public_records, delete_entries, delete_matching,
}

module _ (found : String → String → Bool) (filters : Filters) where
  -- The entries that the filters take.
  abbrev pub matching : List Entry → List Entry
  matching entries = keep (λ entry. public_record_matches found filters entry) entries

  abbrev pub other_entries : List Entry → List Entry
  other_entries entries = keep (λ entry. not (public_record_matches found filters entry)) entries

  -- A line that a deletion of the system's events keeps.
  abbrev pub stays : Line → Bool
  stays (foreign text) = true
  stays (event entry) = not (public_record_matches found filters entry)

  public_items-matching :
      (source : String) (entries : List Entry)
      → public_items found source filters entries ≡ map (item_of source) (matching entries)
  unfolding public_items public_record_matches
  public_items-matching source [] = refl
  public_items-matching source (entry ∷ entries) =
      ground (arith, public_items-matching source entries)

  none_matching : (entries : List Entry) → matching (other_entries entries) ≡ []
  none_matching [] = refl
  none_matching (entry ∷ entries) = ground (arith, none_matching entries)

  delete_public_records_lem :
      (lines : List Line)
      → delete_public_records found filters lines
        ≡ (length (matching (public_records lines)), keep stays lines)
  unfolding delete_public_records public_records
  delete_public_records_lem [] = refl
  delete_public_records_lem (foreign text ∷ lines) =
      ap (λ r. (r.0, foreign text ∷ r.1)) (delete_public_records_lem lines)
  delete_public_records_lem (event entry ∷ lines) =
      let ih = delete_public_records_lem lines in
      elim (Bool-cases (public_record_matches found filters entry)) [
        | inl e ↦ rw e (ap (λ r. (suc r.0, r.1)) ih)
        | inr e ↦ rw e (ap (λ r. (r.0, event entry ∷ r.1)) ih)
      ]

  public_records-stays :
      (lines : List Line) → public_records (keep stays lines) ≡ other_entries (public_records lines)
  unfolding public_records
  public_records-stays [] = refl
  public_records-stays (foreign text ∷ lines) = public_records-stays lines
  public_records-stays (event entry ∷ lines) =
      elim (Bool-cases (public_record_matches found filters entry)) [
        | inl e ↦ rw e (public_records-stays lines)
        | inr e ↦ rw e (ap (λ rest. entry ∷ rest) (public_records-stays lines))
      ]

  length-map :
      (source : String) (entries : List Entry)
      → length (map (item_of source) entries) ≡ length entries
  length-map source [] = refl
  length-map source (entry ∷ entries) = omega (arith, length-map source entries)

  listed_length :
      (source : String) (entries : List Entry)
      → length (public_items found source filters entries) ≡ length (matching entries)
  listed_length source entries =
      ap (λ items. length items) (public_items-matching source entries)
      ∙ length-map source (matching entries)

  nothing_left :
      (source : String) (entries : List Entry)
      → public_items found source filters (other_entries entries) ≡ []
  nothing_left source entries =
      public_items-matching source (other_entries entries)
      ∙ ap (λ rest. map (item_of source) rest) (none_matching entries)

  system_left :
      (lines : List Line)
      → public_items found "system" filters (public_records (keep stays lines)) ≡ []
  system_left lines =
      ap (λ entries. public_items found "system" filters entries) (public_records-stays lines)
      ∙ nothing_left "system" (public_records lines)

  -- Under any filters, a deletion reports as many entries as are listed before it; nothing is listed after it
  -- under the same filters; and of the chosen sources it keeps, in order, every line of the system log
  -- that is no matching event and every diagnostic that does not match, and all of the others.
  pub delete_matching-listed :
      (feed : Feed)
      → ((delete_matching found filters feed).0 ≡ length (listed found filters feed))
        × (listed found filters (delete_matching found filters feed).1 ≡ [])
        × ((delete_matching found filters feed).1.system
            ≡ (if has_source filters "system" then keep stays feed.system else feed.system))
        × ((delete_matching found filters feed).1.runtime
            ≡ (if has_source filters "runtime" then other_entries feed.runtime else feed.runtime))
  unfolding delete_matching listed delete_entries
  delete_matching-listed feed =
      let s = delete_public_records_lem feed.system in
      let count_system = listed_length "system" (public_records feed.system) in
      let count_runtime = listed_length "runtime" feed.runtime in
      elim (Bool-cases (has_source filters "system")) [
        | inl hs ↦ elim (Bool-cases (has_source filters "runtime")) [
          | inl hr ↦
              rw (hs, hr, s)
                (
                  omega (
                    arith,
                    count_system,
                    count_runtime,
                    length-append (public_items found "system" filters (public_records feed.system))
                        (public_items found "runtime" filters feed.runtime),
                  ),
                  rw (system_left feed.system, nothing_left "runtime" feed.runtime) (refl),
                  refl,
                  refl,
                )
          | inr hr ↦
              rw (hs, hr, s)
                (
                  omega (
                    arith,
                    count_system,
                    length-append (public_items found "system" filters (public_records feed.system))
                        [],
                  ),
                  rw (system_left feed.system) (refl),
                  refl,
                  refl,
                )
        ]
        | inr hs ↦ elim (Bool-cases (has_source filters "runtime")) [
          | inl hr ↦
              rw (hs, hr)
                (omega (arith, count_runtime), nothing_left "runtime" feed.runtime, refl, refl)
          | inr hr ↦ rw (hs, hr) (refl, refl, refl, refl)
        ]
      ]
