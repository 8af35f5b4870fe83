-- ===== src/Examples/Fleet.antt =====
-- The theorems on the fleet's card, on two nodes and three reads.
use Prim.Native.String.{String}
use text.Mathlib.Text.{◌==◌ as str_eq}
use symphony_akida.Prelude.{true, false, List, [], ◌∷◌, Option, none, some, All}
use symphony_akida.Prelude.Outcome.{return, raise, Exception, runtime_error}
use symphony_akida.Prelude.Dict.{string_eq}
use symphony_akida.Fleet.Roster.{Node}
use symphony_akida.Fleet.Workers.{Scans, Info}
use symphony_akida.Fleet.Answers.{Call, IsFaithful, read_calls, read_calls-IsFaithful}
use symphony_akida.Examples.Node.{plain}

abbrev two_nodes : List Node
two_nodes =
    record {
      index = 0;
      name = "symphony-compute-0";
      host = "symphony-compute-0.local";
      chip_node = some "/dev/akd1500_0";
      product = some "AKD1500";
      running = true;
      url = none;
    }
    ∷ record {
      index = 1;
      name = "symphony-compute-1";
      host = "symphony-compute-1.local";
      chip_node = none;
      product = none;
      running = false;
      url = none;
    }
    ∷ []

abbrev first_worker : List (String × Info)
first_worker =
    (
      "symphony-compute-0",
      record { ready = true; device = none; product = some "AKD1000"; model = some "kws" },
    )
    ∷ []

abbrev first_call : Call String
first_call = record {
  key = "batch-inference";
  now = 100;
  nodes = return two_nodes;
  seen = first_worker;
}

abbrev second_call : Call String
second_call = record { key = "batch-inference"; now = 101; nodes = raise runtime_error; seen = [] }

abbrev third_call : Call String
third_call = record { key = "batch-inference"; now = 200; nodes = raise runtime_error; seen = [] }

abbrev docker : Exception → String
docker e = "docker: wedged"

abbrev joined : String → String → String
joined a b = b

read_calls-IsFaithful_example :
    All IsFaithful (read_calls joined docker 2 (first_call ∷ second_call ∷ third_call ∷ []) [])
read_calls-IsFaithful_example =
    read_calls-IsFaithful joined docker 2 (first_call ∷ second_call ∷ third_call ∷ [])

-- A marker is contained in itself only.
abbrev exact : Scans
exact = record {
  methods = plain;
  contains = λ marker text. str_eq marker text;
  device_in = λ text. none;
  model_in = λ text. none;
  path_lt = λ p q. false;
}

abbrev some_logs : List (Option String)
some_logs = none ∷ some "no device" ∷ some "worker READY" ∷ []
