-- ===== src/Wire/Batch.antt =====
-- The batch worker's loop: src/apps/batch-inference/service/akida_worker.py, `main`. It serves the
-- same protocol as worker_io.py, but maps the request's model before it reads the payload. The
-- chip is a parameter.
pub mod Inline
use Prim.Native.String.{String}
use text.Mathlib.Text.{◌==◌ as str_eq}
use symphony_akida.Prelude.{
  ℕ, ◌≡◌, refl, ap₂, ◌∙◌, Bool, true, false, [], ◌∷◌, ◌++◌, Option, none, some, arith, length,
  length-append, take, take-append, drop-append, if◌then◌else◌,
}
use symphony_akida.Prelude.Outcome.{
  Outcome, return, raise, Exception, eof_error, key_error, value_error,
}
use symphony_akida.Wire.Stream.{
  Bytes, Pipe, got, eof, blocked, read_line, read_exact, read_exact_got,
}
use symphony_akida.Wire.Serve.{Reply, answer, error, Turn, stops, waits, skips, replies}

-- The shared chip code: the mapped model, `load` and `infer`, each of which may raise.
pub record Chip (C R : Type 0) : Type 0 where
  pub is_mapped : C → String → Bool
  pub load : C → String → C × Outcome String
  pub infer : C → Bytes → C × Outcome R

-- A request line, with the keys that the worker reads.
pub record BatchRequest : Type 0 where
  pub shutdown : Bool
  pub model : Option String
  pub n : Option ℕ
  pub inline : Bool
  pub input : Option Bytes
  pub is_load : Bool
  pub name : Option String

-- What a reply line holds.
pub data BatchReply (R : Type 0) : Type 0 where
  result : R → BatchReply R
  loaded : String → BatchReply R
  unknown : BatchReply R

module _ {C R : Type 0} (chip : Chip C R) (most : ℕ → ℕ) (shm : Option Bytes) where
  abbrev pub result_of : Outcome R → Reply (BatchReply R)
  result_of (return r) = answer (result r)
  result_of (raise e) = error e

  abbrev pub loaded_of : Outcome String → Reply (BatchReply R)
  loaded_of (return name) = answer (loaded name)
  loaded_of (raise e) = error e

  unfoldable pub infer_on : C → Bytes → Pipe → Turn C (BatchReply R)
  infer_on c input p = let (c', out) = chip.infer c input in replies c' (result_of out) p

  unfoldable pub infer_payload : C → ℕ → Option Bytes → Pipe → Turn C (BatchReply R)
  unfolding infer_on
  infer_payload c n none p = elim (read_exact most p n) [
    | got payload rest ↦ infer_on c payload (record p { bytes = rest })
    | eof ↦ replies c (error eof_error) (record p { bytes = [] })
    | blocked ↦ waits
  ]
  infer_payload c n (some buffer) p = infer_on c (take n buffer) p

  -- `{"action": "load"}`; `req["name"]` raises where it is absent.
  abbrev pub load_named : C → Option String → Pipe → Turn C (BatchReply R)
  load_named c none p = replies c (error key_error) p
  load_named c (some name) p = let (c', out) = chip.load c name in replies c' (loaded_of out) p

  abbrev pub other_request : C → BatchRequest → Option Bytes → Pipe → Turn C (BatchReply R)
  other_request c r (some input) p = infer_on c input p
  other_request c r none p =
      if r.is_load then load_named c r.name p else replies c (answer unknown) p

  -- The request once its model is mapped.
  unfoldable pub after_load : C → BatchRequest → Option ℕ → Pipe → Turn C (BatchReply R)
  unfolding infer_payload infer_on
  after_load c r none p = other_request c r r.input p
  after_load c r (some n) p = infer_payload c n (if r.inline then none else shm) p

  abbrev pub loaded_then : BatchRequest → Pipe → C → Outcome String → Turn C (BatchReply R)
  loaded_then r p c (return name) = after_load c r r.n p
  loaded_then r p c (raise e) = replies c (error e) p

  -- `if model and _stem(model) != chip.stem: chip.load(model)`
  unfoldable pub map_model : C → BatchRequest → Option String → Pipe → Turn C (BatchReply R)
  unfolding after_load
  map_model c r none p = after_load c r r.n p
  map_model c r (some model) p =
      if str_eq model ""
      then after_load c r r.n p
      else if chip.is_mapped c model
      then after_load c r r.n p
      else (let (c', out) = chip.load c model in loaded_then r p c' out)

  unfoldable pub batch_request : C → Option BatchRequest → Pipe → Turn C (BatchReply R)
  unfolding map_model
  batch_request c none p = replies c (error value_error) p
  batch_request c (some r) p = if r.shutdown then stops else map_model c r r.model p

  abbrev pub batch_line : (Bytes → Option BatchRequest) → C → Bytes → Pipe → Turn C (BatchReply R)
  batch_line decode c [] p = skips p
  batch_line decode c (b ∷ bs) p = batch_request c (decode (b ∷ bs)) p

  abbrev pub batch_read :
      (Bytes → Bytes) → (Bytes → Option BatchRequest) → C → Bytes → Pipe → Turn C (BatchReply R)
  batch_read strip decode c [] p = stops
  batch_read strip decode c (b ∷ bs) p = batch_line decode c (strip (b ∷ bs)) p

  -- One round of the `while True` of `main`, with `json.loads` and `bytes.strip` as parameters.
  unfoldable pub batch_turn :
      (Bytes → Bytes) → (Bytes → Option BatchRequest) → C → Pipe → Turn C (BatchReply R)
  unfolding batch_request
  batch_turn strip decode c p = elim (read_line p) [
    | got line rest ↦ batch_read strip decode c line (record p { bytes = rest })
    | eof ↦ stops
    | blocked ↦ waits
  ]
