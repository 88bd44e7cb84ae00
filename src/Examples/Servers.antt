-- ===== src/Examples/Servers.antt =====
-- The calls of a listing, and a server that is interrupted before and after it serves.
use undergraduate_project.Shared.{◌≡◌, true, false, [], ◌∷◌}
use undergraduate_project.Netif.Dispatch.{op_readdir, calls_of, AllTyped, calls-AllTyped}
use undergraduate_project.Netif.Serving.{
  run, setting_up, is_finished, advance, interrupt, ends_when_interrupted,
}

calls-AllTyped_example : AllTyped (calls_of op_readdir)
calls-AllTyped_example = calls-AllTyped op_readdir

ends_when_interrupted_example :
    is_finished
      (run
        (record { phase = setting_up; should_run = false })
        (advance ∷ interrupt ∷ advance ∷ advance ∷ interrupt ∷ advance ∷ [])).phase
    ≡ true
ends_when_interrupted_example =
    ends_when_interrupted false (advance ∷ interrupt ∷ advance ∷ advance ∷ interrupt ∷ advance ∷ [])
