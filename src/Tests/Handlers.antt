-- ===== src/Tests/Handlers.antt =====
-- Handlers: an upload and its copies, and a download.
use mathlib.Core.Option.{some-injective}
use eggdfs.Base.{
  ℕ, ◌≡◌, ◌≢◌, ◌↔◌, refl, true, false, Option, none, some, List, [], ◌∷◌, Outcome, done, panic,
  blocked, Bool-cases, inl, inr, sym, subst, Result, ok, err, ◌⊎◌, if◌then◌else◌,
}
use eggdfs.Base.Dict.{insert, lookup}
use eggdfs.Base.Text.{Text, bytes, text_eq, text_eq_iff, has_byte}
use eggdfs.Base.Visit.{forwards, backwards}
use eggdfs.Db.Memory.{memory, no_entries}
use eggdfs.Group.{StorageServer, Group, get_storage}
use eggdfs.Tests.{group_name, http, addr_a, addr_b, node_a, node_b, pair}
use eggdfs.Tests.Trackers.{tracker_of, tracker_of-IsSound}
use eggdfs.Tracker.{Tracker, IsSound, get_group}
use eggdfs.Tracker.Proxy.{Headers, answered, unreachable, relayed, address_url, separator}
use eggdfs.Tracker.Query.{download}
use eggdfs.Tracker.Query.Laws.{Answers, download_lem}
use eggdfs.Tracker.Select.{no_available_group, no_available_storage}
use eggdfs.Tracker.Upload.{
  sent, failed, SyncTask, quick_upload, replicate_upload, sync_info, success_text,
}
use eggdfs.Tracker.Upload.Replicas.{CopiesTo}
use eggdfs.Tracker.Upload.Success.{quick_upload_copies}
use eggdfs.Tracker.Upload.Total.{Replies, quick_upload_lem}

abbrev pub tracker : Tracker memory.State
tracker = tracker_of no_entries pair

pub tracker-IsSound : IsSound tracker
tracker-IsSound = tracker_of-IsSound no_entries

-- The answer of a storage that saved `d/f`.
abbrev stored : Text → Headers
stored path = record { upload_res = success_text; file_path = path; file_hash = b'5' ∷ [] }

abbrev path_of_f : Text
path_of_f = b'd' ∷ b'/' ∷ b'f' ∷ []

pub name_f-plain : has_byte b'/' (b'f' ∷ []) ≡ false
unfolding has_byte
name_f-plain = refl

-- A parser that refuses a percent sign.
unfoldable parse : Text → Option Text
parse url = if has_byte b'%' url then some (b'e' ∷ []) else none

-- The servers of the one group are those of the pair.
in_pair : (n : Text) (g : Group) → get_group n tracker ≡ some g → g ≡ pair
unfolding get_group lookup
in_pair n g at = elim (Bool-cases (text_eq group_name n)) [
  | inl same ↦ sym (some-injective pair g (rw same at at))
  | inr differ ↦ cc (rw differ at at)
]

parse_at :
    (a b : Text)
    → text_eq a b ≡ true
    → parse (address_url http a) ≡ none
    → parse (address_url http b) ≡ none
parse_at a b same fine =
    subst (λ z. parse (address_url http z) ≡ none) ((text_eq_iff a b).0 same) fine

pair_parses :
    (s : StorageServer) → get_storage s.addr pair ≡ some s → parse (address_url http s.addr) ≡ none
unfolding get_storage lookup parse address_url separator bytes has_byte
pair_parses s reg = elim (Bool-cases (text_eq addr_b s.addr)) [
  | inl same ↦ parse_at addr_b s.addr same refl
  | inr differ ↦ elim (Bool-cases (text_eq addr_a s.addr)) [
    | inl same ↦ parse_at addr_a s.addr same refl
    | inr away ↦ cc (rw (differ, away) at reg)
  ]
]

parse_fine :
    (n : Text) (g : Group) (s : StorageServer)
    → get_group n tracker ≡ some g
    → get_storage s.addr g ≡ some s
    → parse (address_url http s.addr) ≡ none
parse_fine n g s at reg =
    pair_parses s (subst (λ z. get_storage s.addr z ≡ some s) (in_pair n g at) reg)

quick_upload_lem_example : Replies forwards (answered (stored path_of_f)) tracker tracker-IsSound (
    quick_upload forwards forwards
      (λ ip. 4)
      (λ url. none)
      http
      []
      (b'i' ∷ [])
      (answered (stored path_of_f))
      tracker)
quick_upload_lem_example =
    quick_upload_lem forwards (answered (stored path_of_f)) tracker tracker-IsSound (λ url. none)
      http (b'i' ∷ []) forwards (λ ip. 4) []

quick_upload_copies_example :
    ((g : Group) × (s : StorageServer) × (tasks : List SyncTask) × (quick_upload forwards backwards
          (λ ip. 4)
          parse
          http
          []
          (b'i' ∷ [])
          (answered (stored path_of_f))
          tracker
        ≡ done (sent (relayed (stored path_of_f)), tasks, tracker))
      × (get_group g.name tracker ≡ some g)
      × (g.status ≡ 1)
      × (get_storage s.addr g ≡ some s)
      × (s.status ≡ 1)
      × CopiesTo g s
          (λ server. sync_info s server g.name (b'i' ∷ []) (b'd' ∷ []) (b'f' ∷ []) (b'5' ∷ []))
          tasks)
    ⊎ (((n : Text) (g : Group) → get_group n tracker ≡ some g → g.status ≢ 1)
        × (quick_upload forwards backwards
              (λ ip. 4)
              parse
              http
              []
              (b'i' ∷ [])
              (answered (stored path_of_f))
              tracker
            ≡ done (failed no_available_group, [], tracker)))
    ⊎ ((g : Group) × (get_group g.name tracker ≡ some g)
        × ((s : StorageServer) → get_storage s.addr g ≡ some s → s.status ≢ 1)
        × (quick_upload forwards backwards
              (λ ip. 4)
              parse
              http
              []
              (b'i' ∷ [])
              (answered (stored path_of_f))
              tracker
            ≡ done (failed no_available_storage, [], tracker)))
quick_upload_copies_example =
    quick_upload_copies forwards backwards (λ ip. 4) parse http [] (b'i' ∷ []) (stored path_of_f)
      tracker tracker-IsSound (b'd' ∷ []) (b'f' ∷ []) parse_fine refl refl name_f-plain

-- The copy goes to the other server alone.
replicate_upload_pair :
    replicate_upload backwards node_a group_name (b'i' ∷ []) (relayed (stored path_of_f)) tracker
    ≡ done (
        (node_b, sync_info node_a node_b group_name (b'i' ∷ []) (b'd' ∷ []) (b'f' ∷ []) (b'5' ∷ []))
        ∷ [])
unfolding replicate_upload text_eq success_text bytes eggdfs.Util.parse_header_file_path get_group
    lookup eggdfs.Group.get_storages eggdfs.Base.Sort.sort_strings eggdfs.Base.Dict.values
replicate_upload_pair = refl

download_lem_example :
    Answers
      (λ url. none)
      (unreachable [])
      tracker
      tracker-IsSound
      (download forwards (λ ip. 4) (λ url. none) group_name [] (unreachable []) tracker)
download_lem_example =
    download_lem (λ url. none) (unreachable []) tracker tracker-IsSound forwards (λ ip. 4)
      group_name []
