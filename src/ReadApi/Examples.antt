-- ===== src/ReadApi/Examples.antt =====
-- Runs of the read clients' answers, on a log of two entries whose root is their number.
use cosaci.Prelude.{◌≡◌, refl, none, some, [], ◌∷◌, length, true}
use cosaci.Text.{codes, decimal, decimal_onto}
use cosaci.MerkleLog.{Trees}
use cosaci.Protocol.{get_log_root, log_root, get_captures, captures_not_found, admin_list_agents}
use cosaci.Rounds.{Coordinator, mem, captures_path}
use cosaci.ReadApi.{root, handle_read_client}

abbrev trees : Trees
trees = record {
  root_of = λ leaves. some (length leaves ∷ []);
  proof_of = λ leaves i. [];
  verify = λ proof root i leaf n. true;
}

abbrev state : Coordinator
state = record {
  stake_ledger = record { stakes = [] };
  log = mem (record { entries = [] ∷ [] ∷ []; store = record { stored = [] ∷ [] ∷ [] } });
  records = [];
  journal = none;
  captures = [];
}

path_run : captures_path (codes "/var/c") 12 3 ≡ codes "/var/c/12/3.cbor"
unfolding captures_path decimal decimal_onto
path_run = refl

root_run :
    handle_read_client trees (λ bytes. none) [] get_log_root state
    ≡ some (log_root (some (2 ∷ [])) 2)
unfolding handle_read_client root cosaci.MerkleLog.root
root_run = refl

nothing_kept :
    handle_read_client trees (λ bytes. none) [] (get_captures 1 2) state
    ≡ some (captures_not_found 1 2)
unfolding handle_read_client
nothing_kept = refl

dropped : handle_read_client trees (λ bytes. none) [] admin_list_agents state ≡ none
unfolding handle_read_client
dropped = refl
