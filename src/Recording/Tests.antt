-- ===== src/Recording/Tests.antt =====
-- The theorems of Recording at a concrete plan.
use skeyevss_backend_service.Prelude.{
  ℕ, zero, suc, ◌+◌, ◌≡◌, refl, some, List, [], ◌∷◌, arith, nat_comparable, true, false, ◌||◌, ◌&&◌,
  nat_beq,
}
use skeyevss_backend_service.Text.{Text, bytes}
use skeyevss_backend_service.GoMap.{GoMap}
use skeyevss_backend_service.Recording.{
  at_hour, Project, runs_now, Answers, lock_got, Recorder, do_pass,
}
use skeyevss_backend_service.Recording.Cover.{on_at}
use skeyevss_backend_service.Recording.Pass.{hours_of_day, runs_now_lem, Recorded, do_pass_lem}

abbrev hours : ℕ → Text → List Text → List Text
hours zero x rest = rest
hours (suc n) x rest = x ∷ hours n x rest

abbrev project : Project
project = record {
  plans = hours 32 (bytes "0") (hours 2 (bytes "1") (hours 134 (bytes "0") []));
  channel_unique_ids = 5 ∷ 6 ∷ [];
}

runs_now_lem_example : runs_now (at_hour 86400 10 + 0) 2 86400 project ≡ (
    on_at 10 0 (hours_of_day 2 project.plans)
    || (nat_beq 0 0 && on_at 10 1 (hours_of_day 2 project.plans)))
runs_now_lem_example =
    runs_now_lem project 2 86400 10 0 refl (omega arith) (omega arith) (omega arith)

abbrev rels : GoMap ℕ ℕ
rels = (5, 50) ∷ (6, 60) ∷ []

abbrev answers : Answers ℕ
answers = record {
  lock = lock_got;
  released = true;
  projects = some (project ∷ []);
  channel_maps = λ q. some rels;
  week_day = 2;
  start_of_day = 86400;
}

abbrev recorder : Recorder ℕ
recorder = record {
  executing = false;
  exec_channel_unique_ids = 4 ∷ 5 ∷ [];
  start_recording_ids = [];
  stop_recording_ids = [];
  logs = [];
}

do_pass_lem_example :
    Recorded answers 118830 (project ∷ []) rels recorder (do_pass answers 118830 recorder)
do_pass_lem_example = do_pass_lem answers 118830 (project ∷ []) rels recorder refl refl (λ q. refl)
