-- ===== src/Node.antt =====
-- The HTTP service of one node: src/apps/serial-http-round-robin/service/http_server.py. A request
-- is its path and its parsed body, a response its status and content.
pub mod Invariant
use Prim.Native.String.{String}
use text.Mathlib.Text.{◌==◌ as str_eq}
use symphony_akida.Prelude.{
  ℕ, Bool, true, false, not, ◌||◌, List, [], ◌∷◌, Option, none, some, if◌then◌else◌,
}
use symphony_akida.Prelude.Outcome.{Outcome, return, raise, Exception}
use symphony_akida.Chip.{Runtime, Chip, new_chip, Info, Prediction, load, unload, infer}

-- `_chip` with its product name, and `_hw_present`.
pub record Node (M : Type 0) : Type 0 where
  pub chip : Option (Chip M)
  pub product : String
  pub hw_present : Bool

-- The keys of a POST body; an absent key is `none`.
pub record Body : Type 0 where
  pub name : Option String
  pub input : Option (List ℕ)

pub data Content : Type 0 where
  loaded : Info → Content
  unloaded : Content
  inferred : Prediction → (hardware : Option String) → (mode : String) → Content
  health :
      (model : Option String)
      → (akida_mapped hardware_present : Bool) → (product : Option String)
      → (map_error : Option Exception) → Content
  models : (current : Option String) → Content
  failed : Exception → Content
  refused : String → Content

pub record Response : Type 0 where
  pub code : ℕ
  pub content : Content

abbrev pub send : ℕ → Content → Response
send code content = record { code = code; content = content }

module _ {M : Type 0} (akida : Runtime M) where
  -- `_init`: the device may be absent, and a default model that fails is only reported.
  abbrev pub with_default : Option String → Chip M → Chip M
  with_default none c = c
  with_default (some name) c = (load akida name true c).0

  unfoldable pub init_node : Outcome String → Option String → Node M
  unfolding load new_chip
  init_node (raise e) default_model = record { chip = none; product = ""; hw_present = false }
  init_node (return product) default_model = record {
    chip = some (with_default default_model new_chip);
    product = product;
    hw_present = true;
  }

  abbrev pub load_response : Outcome Info → Response
  load_response (return info) = send 200 (loaded info)
  load_response (raise e) = send 500 (failed e)

  abbrev pub load_on : Option (Chip M) → String → Node M → Node M × Response
  load_on none name s = (s, send 503 (refused "no akida device on this node"))
  load_on (some c) name s =
      let (c', out) = load akida name true c in (record s { chip = some c' }, load_response out)

  unfoldable pub post_load : Option String → Node M → Node M × Response
  unfolding load
  post_load none s = (s, send 400 (refused "no model name"))
  post_load (some name) s =
      if str_eq name "" then (s, send 400 (refused "no model name")) else load_on s.chip name s

  abbrev pub unload_on : Option (Chip M) → Node M → Node M
  unload_on none s = s
  unload_on (some c) s = record s { chip = some (unload akida c) }

  abbrev pub infer_response : Chip M → String → Outcome Prediction → Response
  infer_response c product (raise e) = send 500 (failed e)
  infer_response c product (return r) = send 200 (
      inferred r (if c.on_chip then some product else none)
        (if c.on_chip then "on-chip" else "software"))

  unfoldable pub post_infer : Option (Chip M) → Option (List ℕ) → String → Response
  unfolding infer
  post_infer none input product = send 503 (refused "no akida device on this node")
  post_infer (some c) none product = send 400 (refused "no input")
  post_infer (some c) (some arr) product = infer_response c product (infer akida arr c)

  -- `do_POST`
  unfoldable pub do_post : String → Body → Node M → Node M × Response
  unfolding post_load post_infer unload
  do_post path body s =
      if str_eq path "/load" || str_eq path "/reload"
      then post_load body.name s
      else if str_eq path "/unload"
      then (unload_on s.chip s, send 200 unloaded)
      else if str_eq path "/infer"
      then (s, post_infer s.chip body.input s.product)
      else (s, send 404 (refused "not found"))

  unfoldable pub do_posts : List (String × Body) → Node M → Node M
  unfolding do_post
  do_posts [] s = s
  do_posts ((path, body) ∷ more) s = do_posts more ((do_post path body s).0)

  abbrev pub health_of : Option (Chip M) → Node M → Content
  health_of none s = health none false s.hw_present none none
  health_of (some c) s = health c.stem c.on_chip s.hw_present (some s.product) c.map_error

  abbrev pub current_of : Option (Chip M) → Option String
  current_of none = none
  current_of (some c) = c.stem

  -- `do_GET`, but for the static entries of the model list.
  unfoldable pub do_get : String → Node M → Response
  do_get path s =
      if str_eq path "/health"
      then send 200 (health_of s.chip s)
      else if str_eq path "/models"
      then send 200 (models (current_of s.chip))
      else send 404 (refused "not found")
