-- ===== src/Status/Examples.antt =====
-- Runs of the status machine.
use cosaci.Prelude.{◌≡◌, refl, [], ◌∷◌, List, none}
use cosaci.Status.{
  Status, running, quorum_verifying, success, failure, is_allowed, is_terminal, new, transition,
}
use cosaci.Status.Lifecycle.{run}
use cosaci.Status.Checks.{JobContext}

abbrev requests : List Status
requests = running ∷ success ∷ quorum_verifying ∷ failure ∷ success ∷ []

finished : (run new requests).current ≡ failure
unfolding run transition new is_allowed is_terminal
finished = refl

abbrev context : JobContext
context = record {
  name = "build";
  commit_sha = "abc";
  details_url = none;
  summary = "ran";
  title = "CosaCI";
}
