-- ===== src/Fleet/Workers.antt =====
-- The workers, from their logs: fleet.py, `workers`.
use Prim.Native.String.{String}
use text.Mathlib.Text.{◌==◌ as str_eq}
use symphony_akida.Prelude.{
  ℕ, ◌≡◌, refl, Bool, true, false, List, [], ◌∷◌, ◌++◌, Option, none, some, arith, if◌then◌else◌,
  ltb, ◌==◌,
}
use symphony_akida.Prelude.Dict.{lookup, insert, string_eq}
use symphony_akida.Names.{Methods, from_desc}

-- A log file: the host in its name, its time where that can be read, and its head likewise.
pub record Log : Type 0 where
  pub host : Option String
  pub mtime : Option ℕ
  pub path : String
  pub head : Option String

-- What a log says of its worker.
pub record Info : Type 0 where
  pub ready : Bool
  pub device : Option String
  pub product : Option String
  pub model : Option String

-- The search of the marker and the two regular expressions, and the order of paths.
pub record Scans : Type 0 where
  pub methods : Methods
  pub contains : String → String → Bool
  pub device_in : String → Option (String × Option String)
  pub model_in : String → Option String
  pub path_lt : String → String → Bool

abbrev pub log_specs : List (String × (String × String))
log_specs =
    ("batch-inference", ("soam/akida-service/logs/si-*.log", "worker READY"))
    ∷ ("image-shard-inference", ("soam/shard-inference/logs/si-*.log", "worker READY"))
    ∷ ("serial-http-round-robin", ("soam/http-service/logs/http-*.log", "listening on"))
    ∷ []

-- A log of a host: its time, its path and its head.
abbrev pub Entry : Type 0
Entry = ℕ × (String × Option String)

abbrev pub logs_at : Option (List Entry) → List Entry
logs_at none = []
logs_at (some logs) = logs

-- `by_host.setdefault(host, []).append((mtime, path))`, with what `_head` reads beside it.
abbrev pub file_log :
    Option String → Option ℕ → Log → List (String × List Entry) → List (String × List Entry)
file_log (some host) (some mtime) log groups =
    insert host (logs_at (lookup host groups) ++ (mtime, (log.path, log.head)) ∷ []) groups
file_log _ _ log groups = groups

unfoldable pub group_logs : List Log → List (String × List Entry) → List (String × List Entry)
unfolding lookup insert
group_logs [] groups = groups
group_logs (log ∷ logs) groups = group_logs logs (file_log log.host log.mtime log groups)

module _ (scans : Scans) (marker : String) where
  -- The loop over a host's logs, newest first: the fallback so far, and the rest of the logs.
  unfoldable pub choose : List (Option String) → Option String → Option String × Bool
  choose [] chosen = (chosen, false)
  choose (none ∷ logs) chosen = choose logs chosen
  choose (some text ∷ logs) chosen =
      let rest = choose logs (elim chosen [ none ↦ some text | some first ↦ some first ]) in
      if scans.contains marker text then (some text, true) else rest

  abbrev pub product_in : String × Option String → String
  product_in (device, some product) =
      if str_eq product "" then from_desc scans.methods (some device) else product
  product_in (device, none) = from_desc scans.methods (some device)

  abbrev pub with_device : Option (String × Option String) → Info → Info
  with_device none info = info
  with_device (some found) info = record info {
    device = some found.0;
    product = some (product_in found);
  }

  abbrev pub with_model : Option String → Info → Info
  with_model none info = info
  with_model (some model) info = record info { model = some model }

  unfoldable pub info_of : String → Bool → Info
  info_of text ready = with_model (scans.model_in text) (
      with_device (scans.device_in text)
        (record { ready = ready; device = none; product = none; model = none }))

  -- `entries.sort(reverse=True)`: by time, and by path where the times agree.
  abbrev pub is_newer : Entry → Entry → Bool
  is_newer (t, (p, head)) (t', (p', head')) =
      if ltb t' t then true else if t == t' then scans.path_lt p' p else false

  abbrev pub place_log : Entry → List Entry → List Entry
  place_log log [] = log ∷ []
  place_log log (other ∷ others) =
      let rest = place_log log others in
      if is_newer other log then other ∷ rest else log ∷ other ∷ others

  abbrev pub newest_first : List Entry → List Entry
  newest_first [] = []
  newest_first (log ∷ logs) = place_log log (newest_first logs)

  abbrev pub heads : List Entry → List (Option String)
  heads [] = []
  heads (log ∷ logs) = log.1.1 ∷ heads logs

  abbrev pub describe : String → Option String × Bool → List (String × Info) → List (String × Info)
  describe host (none, ready) out = out
  describe host (some text, ready) out = insert host (info_of text ready) out

  -- The loop over the hosts.
  unfoldable pub describe_all :
      List (String × List Entry) → List (String × Info) → List (String × Info)
  unfolding choose info_of insert
  describe_all [] out = out
  describe_all ((host, logs) ∷ groups) out =
      describe_all groups (describe host (choose (heads (newest_first logs)) none) out)

-- `LOG_SPECS.get(app)`, the files of its pattern, and what each host's logs say.
abbrev pub workers_by :
    Scans → (String → List Log) → Option (String × String) → List (String × Info)
workers_by scans files none = []
workers_by scans files (some (pattern, marker)) =
    describe_all scans marker (group_logs (files pattern) []) []

unfoldable pub workers : Scans → (String → List Log) → String → List (String × Info)
unfolding lookup group_logs describe_all
workers scans files app = workers_by scans files (lookup app log_specs)

-- The logs that can be read, and the first of a list.
abbrev pub readable : List (Option String) → List String
readable [] = []
readable (none ∷ logs) = readable logs
readable (some text ∷ logs) = text ∷ readable logs

abbrev pub first : List String → Option String
first [] = none
first (text ∷ texts) = some text

abbrev pub or_first : Option String → Option String → Option String
or_first (some text) other = some text
or_first none other = other

abbrev pub filter : (String → Bool) → List String → List String
filter test [] = []
filter test (text ∷ texts) = if test text then text ∷ filter test texts else filter test texts

-- A host's choice in words: the newest log with the marker, and else the newest log.
abbrev pub chosen_of : Option String → Option String → Option String × Bool
chosen_of (some text) fallback = (some text, true)
chosen_of none fallback = (fallback, false)

module _ (scans : Scans) (marker : String) where
  choose_from :
      (logs : List (Option String)) (chosen : Option String)
      → choose scans marker logs chosen
        ≡ chosen_of
            (first (filter (scans.contains marker) (readable logs)))
            (or_first chosen (first (readable logs)))
  unfolding choose
  choose_from [] none = refl
  choose_from [] (some text) = refl
  choose_from (none ∷ logs) chosen = choose_from logs chosen
  choose_from (some text ∷ logs) none = rw (choose_from logs (some text)) (ground arith)
  choose_from (some text ∷ logs) (some fallback) =
      rw (choose_from logs (some fallback)) (ground arith)

  -- The loop over a host's logs, newest first, answers the first readable log that has the marker
  -- and is ready; where no readable log has it, the answer is the first readable log, not ready.
  pub choose-first :
      (logs : List (Option String))
      → choose scans marker logs none
        ≡ chosen_of (first (filter (scans.contains marker) (readable logs))) (first (readable logs))
  choose-first logs = choose_from logs none
