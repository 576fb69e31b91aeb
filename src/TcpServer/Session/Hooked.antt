-- ===== src/TcpServer/Session/Hooked.antt =====
-- simple-tcp-server: a handler whose hooks may block or panic, as those of `main` can.
use teltonika.Prelude.{ℕ, suc, ◌≡◌, ◌⊎◌, List, [], ◌∷◌}
use teltonika.IoElements.{Text}
use teltonika.TcpServer.Session.{
  Event, on_connect, registers, wrote, on_packet, on_close, deletes, closes,
}

-- How a call of a hook ends, if it does.
pub data HookCall : Type 0 where
  returns : HookCall
  blocks : HookCall
  panics : HookCall

module _ {F : Type 0} where
  -- A call of a hook in the body of the handler, and one in its deferred function.
  unfoldable pub in_body :
      HookCall
      → Event F
      → List (Event F) × HookCall
      → List (Event F) × HookCall
      → List (Event F) × HookCall
  in_body returns e (es, c) behind = (e ∷ es, c)
  in_body blocks e rest behind = (e ∷ [], blocks)
  in_body panics e rest (es, c) = (e ∷ es, c)

  unfoldable pub at_end : HookCall → Event F → List (Event F) × HookCall → List (Event F) × HookCall
  at_end returns e (es, c) = (e ∷ es, c)
  at_end blocks e rest = (e ∷ [], blocks)
  at_end panics e rest = (e ∷ [], panics)

module _ {F : Type 0} (hook : ℕ → HookCall) where
  -- The deferred function behind a panic: its own hook, then the registry and the connection.
  unfoldable pub deferred : ℕ → Text → List (Event F) × HookCall
  deferred n imei = elim (hook n) [
    | returns ↦ (on_close imei ∷ deletes imei ∷ closes ∷ [], panics)
    | blocks ↦ (on_close imei ∷ [], blocks)
    | panics ↦ (on_close imei ∷ [], panics)
  ]

  -- What is done of the events of a handler, and how its goroutine ends, when its calls of hooks from
  -- the n-th one on end like this.
  unfoldable pub run_hooks : ℕ → List (Event F) → List (Event F) × HookCall
  run_hooks n [] = ([], returns)
  run_hooks n (on_connect imei ∷ es) =
      in_body (hook n) (on_connect imei) (run_hooks (suc n) es) (deferred (suc n) imei)
  run_hooks n (on_packet imei pkt ∷ es) =
      in_body (hook n) (on_packet imei pkt) (run_hooks (suc n) es) (deferred (suc n) imei)
  run_hooks n (on_close imei ∷ es) = at_end (hook n) (on_close imei) (run_hooks (suc n) es)
  run_hooks n (registers imei ∷ es) = at_end returns (registers imei) (run_hooks n es)
  run_hooks n (wrote bytes ∷ es) = at_end returns (wrote bytes) (run_hooks n es)
  run_hooks n (deletes imei ∷ es) = at_end returns (deletes imei) (run_hooks n es)
  run_hooks n (closes ∷ es) = at_end returns closes (run_hooks n es)

module _ {F : Type 0} (hook : ℕ → HookCall) where
  -- All of the events are done; or a call of a hook did not return, and the goroutine ends like it.
  abbrev pub IsPlayed : List (Event F) → List (Event F) × HookCall → Type 0
  IsPlayed es o = (o ≡ (es, returns)) ⊎ ((k : ℕ) × (hook k ≡ o.1) × ((hook k ≡ returns) → ⊥))
