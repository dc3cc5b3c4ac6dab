-- ===== src/Coordinator/Background/States.antt =====
-- What each signal does to the loops of a node.
use p2p_distributed_system_m.Base.{
  ℕ, ◌≡◌, refl, sym, ap, subst, ◌∙◌, Bytes, List, [], ◌∷◌, Result, ◌==◌, Bool-cases, inl, inr, ◌⊎◌,
  arith,
}
use mathlib.Core.List.{Memᴰ}
use p2p_distributed_system_m.Http.{HttpClient}
use p2p_distributed_system_m.Peer.Record.{Record}
use p2p_distributed_system_m.Coordinator.Host.{Env, Orders}
use p2p_distributed_system_m.Coordinator.Loops.{BootstrapPeer}
use p2p_distributed_system_m.Coordinator.Background.{
  Loop, LoopState, starting, waiting, returned, bootstrap_loop, heartbeat_loop, cleanup_loop,
  Running, Signal, begins, polls, beats, cleans, ends, serves, on_done, beat, clean, end, do_round,
  begin_bootstrap, poll, receive, receive_all,
}

abbrev pub HasBegun : LoopState → Type 0
HasBegun starting = ⊥
HasBegun waiting = Unit
HasBegun returned = Unit

module _ (E : Env) (C : HttpClient) where
  abbrev pub state_of : Loop → Running E C → LoopState
  state_of bootstrap_loop r = r.bootstrap
  state_of heartbeat_loop r = r.heartbeat
  state_of cleanup_loop r = r.cleanup

  module _ (marshal : BootstrapPeer → Result Bytes)
      (unmarshal : Bytes → Result (List BootstrapPeer)) where
    abbrev after : List (Signal E C) → Running E C → Running E C
    after = receive_all E C marshal unmarshal

    on_done-HasBegun : (l : LoopState) → HasBegun l → on_done E C l ≡ returned
    unfolding on_done
    on_done-HasBegun starting b = absurd b
    on_done-HasBegun waiting b = refl
    on_done-HasBegun returned b = refl

    state-beat :
        (l : Loop) (st : LoopState) (o : Orders) (now swept : ℕ) (answered : Record → ℕ)
        (r : Running E C)
        → state_of l (beat E C st o now swept answered r) ≡ state_of l r
    unfolding beat
    state-beat bootstrap_loop starting o now swept answered r = refl
    state-beat bootstrap_loop waiting o now swept answered r = refl
    state-beat bootstrap_loop returned o now swept answered r = refl
    state-beat heartbeat_loop starting o now swept answered r = refl
    state-beat heartbeat_loop waiting o now swept answered r = refl
    state-beat heartbeat_loop returned o now swept answered r = refl
    state-beat cleanup_loop starting o now swept answered r = refl
    state-beat cleanup_loop waiting o now swept answered r = refl
    state-beat cleanup_loop returned o now swept answered r = refl

    state-clean :
        (l : Loop) (st : LoopState) (o : Orders) (now : ℕ) (r : Running E C)
        → state_of l (clean E C st o now r) ≡ state_of l r
    unfolding clean
    state-clean bootstrap_loop starting o now r = refl
    state-clean bootstrap_loop waiting o now r = refl
    state-clean bootstrap_loop returned o now r = refl
    state-clean heartbeat_loop starting o now r = refl
    state-clean heartbeat_loop waiting o now r = refl
    state-clean heartbeat_loop returned o now r = refl
    state-clean cleanup_loop starting o now r = refl
    state-clean cleanup_loop waiting o now r = refl
    state-clean cleanup_loop returned o now r = refl

    state-poll :
        (l : Loop) (st : LoopState) (o : Orders) (clock : ℕ → ℕ → ℕ × ℕ) (r : Running E C)
        → state_of l (poll E C marshal unmarshal st o clock r) ≡ state_of l r
    unfolding poll do_round
    state-poll bootstrap_loop starting o clock r = refl
    state-poll bootstrap_loop waiting o clock r = refl
    state-poll bootstrap_loop returned o clock r = refl
    state-poll heartbeat_loop starting o clock r = refl
    state-poll heartbeat_loop waiting o clock r = refl
    state-poll heartbeat_loop returned o clock r = refl
    state-poll cleanup_loop starting o clock r = refl
    state-poll cleanup_loop waiting o clock r = refl
    state-poll cleanup_loop returned o clock r = refl

    abbrev pub begin : LoopState → Orders → (ℕ → ℕ → ℕ × ℕ) → Running E C → Running E C
    begin st o clock r = begin_bootstrap E C marshal unmarshal st o clock r

    -- The goroutine of the bootstrap loop takes its first step once, and touches no other loop.
    begin-HasBegun :
        (st : LoopState) (o : Orders) (clock : ℕ → ℕ → ℕ × ℕ) (r : Running E C)
        → HasBegun st
        → begin st o clock r ≡ r
    unfolding begin_bootstrap
    begin-HasBegun starting o clock r b = absurd b
    begin-HasBegun waiting o clock r b = refl
    begin-HasBegun returned o clock r b = refl

    heartbeat-begin :
        (st : LoopState) (o : Orders) (clock : ℕ → ℕ → ℕ × ℕ) (r : Running E C)
        → (begin st o clock r).heartbeat ≡ r.heartbeat
    unfolding begin_bootstrap do_round
    heartbeat-begin starting o clock r = elim (Bool-cases (r.host.bootstrap == [])) [
      | inl e ↦ rw e refl
      | inr e ↦ rw e refl
    ]
    heartbeat-begin waiting o clock r = refl
    heartbeat-begin returned o clock r = refl

    cleanup-begin :
        (st : LoopState) (o : Orders) (clock : ℕ → ℕ → ℕ × ℕ) (r : Running E C)
        → (begin st o clock r).cleanup ≡ r.cleanup
    unfolding begin_bootstrap do_round
    cleanup-begin starting o clock r = elim (Bool-cases (r.host.bootstrap == [])) [
      | inl e ↦ rw e refl
      | inr e ↦ rw e refl
    ]
    cleanup-begin waiting o clock r = refl
    cleanup-begin returned o clock r = refl

    pub begun :
        (l : LoopState) (o : Orders) (clock : ℕ → ℕ → ℕ × ℕ) (r : Running E C)
        → r.bootstrap ≡ l
        → HasBegun (begin l o clock r).bootstrap
    unfolding begin_bootstrap
    begun starting o clock r e = elim (Bool-cases (r.host.bootstrap == [])) [
      | inl q ↦ rw q tt
      | inr q ↦ rw q tt
    ]
    begun waiting o clock r e = subst HasBegun (sym e) tt
    begun returned o clock r e = subst HasBegun (sym e) tt

    -- What a signal does to a loop that has begun: nothing, or it is the end of its context.
    abbrev Stays : Loop → Signal E C → Running E C → Type 0
    Stays l s r =
        (state_of l (receive E C marshal unmarshal s r) ≡ state_of l r)
        ⊎ ((s ≡ ends l) × (state_of l (receive E C marshal unmarshal s r) ≡ returned))

    receive-Stays :
        (l : Loop) (s : Signal E C) (r : Running E C) → HasBegun (state_of l r) → Stays l s r
    unfolding receive end
    receive-Stays bootstrap_loop (begins o clock) r b =
        inl (ap (λ (z : Running E C). z.bootstrap) (begin-HasBegun r.bootstrap o clock r b))
    receive-Stays heartbeat_loop (begins o clock) r b = inl (heartbeat-begin r.bootstrap o clock r)
    receive-Stays cleanup_loop (begins o clock) r b = inl (cleanup-begin r.bootstrap o clock r)
    receive-Stays l (polls o clock) r b = inl (state-poll l r.bootstrap o clock r)
    receive-Stays l (beats o now swept answered) r b =
        inl (state-beat l r.heartbeat o now swept answered r)
    receive-Stays l (cleans o now) r b = inl (state-clean l r.cleanup o now r)
    receive-Stays bootstrap_loop (ends bootstrap_loop) r b =
        inr (refl, on_done-HasBegun r.bootstrap b)
    receive-Stays bootstrap_loop (ends heartbeat_loop) r b = inl refl
    receive-Stays bootstrap_loop (ends cleanup_loop) r b = inl refl
    receive-Stays heartbeat_loop (ends bootstrap_loop) r b = inl refl
    receive-Stays heartbeat_loop (ends heartbeat_loop) r b =
        inr (refl, on_done-HasBegun r.heartbeat b)
    receive-Stays heartbeat_loop (ends cleanup_loop) r b = inl refl
    receive-Stays cleanup_loop (ends bootstrap_loop) r b = inl refl
    receive-Stays cleanup_loop (ends heartbeat_loop) r b = inl refl
    receive-Stays cleanup_loop (ends cleanup_loop) r b = inr (refl, on_done-HasBegun r.cleanup b)
    receive-Stays bootstrap_loop (serves c) r b = inl refl
    receive-Stays heartbeat_loop (serves c) r b = inl refl
    receive-Stays cleanup_loop (serves c) r b = inl refl

    receive-HasBegun :
        (l : Loop) (s : Signal E C) (r : Running E C)
        → HasBegun (state_of l r)
        → HasBegun (state_of l (receive E C marshal unmarshal s r))
    receive-HasBegun l s r b = elim (receive-Stays l s r b) [
      | inl e ↦ subst HasBegun (sym e) b
      | inr (q, e) ↦ subst HasBegun (sym e) tt
    ]

    after-HasBegun :
        (l : Loop) (ss : List (Signal E C)) (r : Running E C)
        → HasBegun (state_of l r)
        → HasBegun (state_of l (after ss r))
    unfolding receive_all
    after-HasBegun l [] r b = b
    after-HasBegun l (s ∷ ss) r b =
        after-HasBegun l ss (receive E C marshal unmarshal s r) (receive-HasBegun l s r b)

    returned_stays :
        (l : Loop) (ss : List (Signal E C)) (r : Running E C)
        → state_of l r ≡ returned
        → state_of l (after ss r) ≡ returned
    unfolding receive_all
    returned_stays l [] r e = e
    returned_stays l (s ∷ ss) r e =
        returned_stays l ss (receive E C marshal unmarshal s r)
          (elim (receive-Stays l s r (subst HasBegun (sym e) tt)) [
            | inl q ↦ q ∙ e
            | inr (q, d) ↦ d
          ])

    ends-returned :
        (l : Loop) (r : Running E C)
        → HasBegun (state_of l r)
        → state_of l (receive E C marshal unmarshal (ends l) r) ≡ returned
    unfolding receive end
    ends-returned bootstrap_loop r b = on_done-HasBegun r.bootstrap b
    ends-returned heartbeat_loop r b = on_done-HasBegun r.heartbeat b
    ends-returned cleanup_loop r b = on_done-HasBegun r.cleanup b

    -- A loop that has begun returns exactly when the end of the context reaches it.
    pub ended→returned :
        (l : Loop) (ss : List (Signal E C)) (r : Running E C)
        → HasBegun (state_of l r)
        → Memᴰ (ends l) ss
        → state_of l (after ss r) ≡ returned
    unfolding receive_all
    ended→returned l [] r b m = elim m [ ]
    ended→returned l (s ∷ ss) r b (Memᴰ.head q) =
        returned_stays l ss (receive E C marshal unmarshal s r) (
          subst (λ z. state_of l (receive E C marshal unmarshal z r) ≡ returned) q
            (ends-returned l r b))
    ended→returned l (s ∷ ss) r b (Memᴰ.tail m) =
        ended→returned l ss (receive E C marshal unmarshal s r) (receive-HasBegun l s r b) m

    pub returned→ended :
        (l : Loop) (ss : List (Signal E C)) (r : Running E C)
        → state_of l r ≡ waiting
        → state_of l (after ss r) ≡ returned
        → Memᴰ (ends l) ss
    unfolding receive_all
    returned→ended l [] r w e = absurd (ground (arith, w, e))
    returned→ended l (s ∷ ss) r w e = elim (receive-Stays l s r (subst HasBegun (sym w) tt)) [
      | inl q ↦ Memᴰ.tail (returned→ended l ss (receive E C marshal unmarshal s r) (q ∙ w) e)
      | inr (q, d) ↦ Memᴰ.head (sym q)
    ]
