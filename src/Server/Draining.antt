-- ===== src/Server/Draining.antt =====
-- What a shutdown promises: its time, its order and its exit code.
use ancore.Common.{
  ℕ, ◌-◌, ◌≤◌, true, false, Option, none, some, List, [], ◌∷◌, map, leb, ◌≡◌, ◌≢◌, ◌↔◌, refl, arith,
  inl, inr, Bool-cases, Option-cases,
}
use ancore.Server.Shutdown.{
  Work, returns, throws, hangs, ShutdownOptions, DrainResult, close_server, with_deadline,
  close_result, last_end, drain_all, close_all, release_resources, run_shutdown, Event, signal,
  finished, rejected, handle, exit_code,
}

with_deadline-le : (w : Work) (timeout_ms : ℕ) → (with_deadline w timeout_ms).at ≤ timeout_ms
unfolding with_deadline
with_deadline-le (returns t ok) timeout_ms = ground arith
with_deadline-le (throws t) timeout_ms = ground arith
with_deadline-le hangs timeout_ms = ground arith

close_server-le : (c : Option ℕ) (timeout_ms : ℕ) → (close_server c timeout_ms).at ≤ timeout_ms
unfolding close_server
close_server-le none timeout_ms = ground arith
close_server-le (some t) timeout_ms = ground arith

last_end-map_le :
    {A : Type 0} (f : A → DrainResult) (m : ℕ) (xs : List A)
    → ((x : A) → (f x).at ≤ m)
    → last_end (map f xs) ≤ m
unfolding last_end
last_end-map_le f m [] h = omega arith
last_end-map_le f m (x ∷ xs) h = ground (arith, h x, last_end-map_le f m xs h)

drain_all-le : (o : ShutdownOptions) → last_end (drain_all o) ≤ o.timeout_ms
unfolding drain_all last_end
drain_all-le o =
    let rest =
      last_end-map_le (λ (drain : ℕ → Work). with_deadline (drain o.timeout_ms) o.timeout_ms)
        o.timeout_ms o.drainables (λ drain. with_deadline-le (drain o.timeout_ms) o.timeout_ms) in
    elim (Option-cases o.server) [
      | inl e ↦ ground (arith, e, rest)
      | inr (c, e) ↦ ground (arith, e, rest, close_server-le c o.timeout_ms)
    ]

release_resources-le :
    (closers : List Work) (started timeout_ms : ℕ)
    → started ≤ timeout_ms
    → ((release_resources closers started (timeout_ms - started)).at ≤ timeout_ms)
      × (started ≤ (release_resources closers started (timeout_ms - started)).at)
unfolding release_resources close_all
release_resources-le [] started timeout_ms h = ground arith
release_resources-le (c ∷ cs) started timeout_ms h =
    let all =
      last_end-map_le (λ close. with_deadline (close_result close) (timeout_ms - started))
        (timeout_ms - started) (c ∷ cs)
        (λ close. with_deadline-le (close_result close) (timeout_ms - started)) in
    elim (Bool-cases (leb (timeout_ms - started) 10)) [
      | inl e ↦ rw e (h, omega arith)
      | inr e ↦ rw e (omega (arith, all), omega arith)
    ]

-- A shutdown is over within its budget, and the resources are released when the last drain is over.
pub run_shutdown_bounds :
    (o : ShutdownOptions)
    → ((run_shutdown o).at ≤ o.timeout_ms) × (last_end (drain_all o) ≤ (run_shutdown o).at)
unfolding run_shutdown
run_shutdown_bounds o =
    release_resources-le o.closers (last_end (drain_all o)) o.timeout_ms (drain_all-le o)

one-ne-zero : ◌≢◌ {A = Option ℕ} (some 1) (some 0)
one-ne-zero = ground arith

-- The exit code of a process that was told to stop is 0 exactly if the shutdown ended cleanly with no
-- second signal before.
pub exit_code-zero :
    (es : List Event)
    → (exit_code false (signal ∷ es) ≡ some 0) ↔ ((rest : List Event) × (es ≡ finished true ∷ rest))
unfolding exit_code handle
exit_code-zero [] = (λ h. cc h, λ (rest, e). cc e)
exit_code-zero (signal ∷ es) = (λ h. absurd (one-ne-zero h), λ (rest, e). cc e)
exit_code-zero (finished true ∷ es) = (λ h. (es, refl), λ h. refl)
exit_code-zero (finished false ∷ es) = (λ h. absurd (one-ne-zero h), λ (rest, e). cc e)
exit_code-zero (rejected ∷ es) = (λ h. absurd (one-ne-zero h), λ (rest, e). cc e)
