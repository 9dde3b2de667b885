-- ===== src/ReadApi/Stored.antt =====
-- What a job has kept is what a read client gets.
use cosaci.Prelude.{ℕ, ◌≡◌, refl, true, false, Option, some, List, bytes_key}
use cosaci.Map.{get, get-insert_self}
use cosaci.Text.{is_empty}
use cosaci.MerkleLog.{Trees}
use cosaci.Jobs.{CapturedOutput}
use cosaci.Protocol.{get_captures, captures_response}
use cosaci.Rounds.{Services, JobArgs, Coordinator, captures_path}
use cosaci.Rounds.Steps.{keep_captures, persist_captures}
use cosaci.ReadApi.{load_captures, handle_read_client}

-- Captures that a job keeps, where the disk is written and what is encoded decodes, are those that
-- a read client gets for the job and the runner.
pub keep_captures-read :
    (v : Services) (j : JobArgs) (t : Trees) (decode : List ℕ → Option (List CapturedOutput))
    (runner_id : ℕ) (captures : List CapturedOutput) (buf : List ℕ) (s : Coordinator)
    → v.encode_captures captures ≡ some buf
    → decode buf ≡ some captures
    → j.disk_writes ≡ true
    → is_empty captures ≡ false
    → is_empty j.captures_dir ≡ false
    → handle_read_client t decode j.captures_dir
        (get_captures j.job_id runner_id)
        (keep_captures v j runner_id captures s)
      ≡ some (captures_response j.job_id runner_id captures)
unfolding handle_read_client load_captures persist_captures get
keep_captures-read v j t decode runner_id captures buf s e decodes writes some_kept some_dir =
    let found = get-insert_self (captures_path j.captures_dir j.job_id runner_id) buf s.captures in
    rw (some_kept, some_dir, e, writes, found, decodes) refl
