-- ===== src/Manager/Worker.antt =====
-- The one SocketConnectionManager and its task (src/SocketConnection.tpp): instance(), the
-- constructor, and the destructor.
use Prim.Native.String.{String}
use async_tcpsock.Base.{
  Option-cases, ap, ℕ, ℤ, Option, none, some, List, [], ◌∷◌, ◌++◌, ◌≡◌, ◌⊎◌, inl, inr, refl,
}
use async_tcpsock.Configuration.{stack, task_priority, running_core}
use async_tcpsock.Os.{Os}
use async_tcpsock.Manager.Registry.{Manager}
use async_tcpsock.Manager.Lifecycle.{new_manager}

-- The arguments of xTaskCreateUniversal, beside the function that the task runs.
pub record TaskSettings : Type 0 where
  pub task_name : String
  pub task_stack_size : ℕ
  pub task_priority : ℕ
  pub task_core_affinity : ℤ

abbrev pub settings : TaskSettings
settings = record {
  task_name = "Async TCP Sock Worker";
  task_stack_size = stack;
  task_priority = task_priority;
  task_core_affinity = running_core;
}

-- FreeRTOS: a task is created, with its handle, or it is not (the result is not pdPASS).
pub record Rtos (os : Os) : Type 0 where
  pub create : TaskSettings → os.World → Option ℕ × os.World
  pub delete : ℕ → os.World → os.World

-- The manager with its task. `none` is a null handle.
pub record SocketConnectionManager (os : Os) : Type 0 where
  pub manager : Manager os
  pub worker_thread : Option ℕ

-- The variable of instance(): not constructed, or constructed.
pub data Instance (os : Os) : Type 0 where
  absent : os.World → Instance os
  present : SocketConnectionManager os → Instance os

module _ (os : Os) (rtos : Rtos os) where
  -- The result of creating the task, in the constructor: an exception leaves no object.
  unfoldable pub created : Option ℕ → os.World → Instance os
  unfolding new_manager
  created none w = absent w
  created (some handle) w =
      present (record { manager = new_manager os w; worker_thread = some handle })

  -- SocketConnectionManager()
  unfoldable pub construct : os.World → Instance os
  unfolding created
  construct w = let (result, w') = rtos.create settings w in created result w'

  -- instance(): constructed at the first call that does not throw.
  unfoldable pub instance' : Instance os → Instance os
  unfolding construct
  instance' (absent w) = construct w
  instance' (present m) = present m

  -- `instance().f()`: an exception comes before the call.
  unfoldable pub call_member : (Manager os → Manager os) → Instance os → Instance os
  call_member f (absent w) = absent w
  call_member f (present m) = present (record m { manager = f m.manager })

  unfoldable pub use_instance : (Manager os → Manager os) → Instance os → Instance os
  unfolding instance' call_member
  use_instance f s = call_member f (instance' s)

  -- ~SocketConnectionManager()
  unfoldable pub destroy : SocketConnectionManager os → os.World
  destroy m = elim m.worker_thread [
    | none ↦ m.manager.world
    | some handle ↦ rtos.delete handle m.manager.world
  ]

  abbrev pub uses : List (Manager os → Manager os) → Instance os → Instance os
  uses [] s = s
  uses (f ∷ fs) s = uses fs (use_instance f s)

  abbrev pub in_order : List (Manager os → Manager os) → Manager os → Manager os
  in_order [] m = m
  in_order (f ∷ fs) m = in_order fs (f m)

  uses_present :
      (fs : List (Manager os → Manager os)) (m : SocketConnectionManager os)
      → uses fs (present m) ≡ present (record m { manager = in_order fs m.manager })
  unfolding use_instance
  uses_present [] m = refl
  uses_present (f ∷ fs) m = uses_present fs (record m { manager = f m.manager })

  -- The creation of the task fails once for each use of the manager.
  abbrev pub Failed : List (Manager os → Manager os) → os.World → os.World → Type 0
  Failed [] w w' = w' ≡ w
  Failed (f ∷ fs) w w' =
      ((rtos.create settings w).0 ≡ none) × Failed fs (rtos.create settings w).1 w'

  -- The manager on which the uses `kept` were made, with its task.
  abbrev pub made : List (Manager os → Manager os) → ℕ → os.World → SocketConnectionManager os
  made kept handle w = record {
    manager = in_order kept (new_manager os w);
    worker_thread = some handle;
  }

  -- What the uses come to, the first of them in the world w.
  abbrev pub Outcome : List (Manager os → Manager os) → os.World → Instance os → Type 0
  Outcome fs w r =
      ((w' : os.World) × Failed fs w w' × (r ≡ absent w'))
      ⊎ ((lost kept : List (Manager os → Manager os)) × (handle : ℕ) × (w' : os.World) × (fs
            ≡ lost ++ kept)
          × Failed lost w w'
          × ((rtos.create settings w').0 ≡ some handle)
          × (r ≡ present (made kept handle (rtos.create settings w').1))
          × (destroy (made kept handle (rtos.create settings w').1)
              ≡ rtos.delete handle (made kept handle (rtos.create settings w').1).manager.world))

  after_first :
      (f : Manager os → Manager os) (fs : List (Manager os → Manager os)) (w : os.World)
      (r : Instance os)
      → (rtos.create settings w).0 ≡ none
      → Outcome fs (rtos.create settings w).1 r
      → Outcome (f ∷ fs) w r
  after_first f fs w r none' (inl (w', failed, e)) = inl (w', (none', failed), e)
  after_first f fs w r none' (inr (lost, kept, handle, w', e, failed, c, h, d)) = inr (
    f ∷ lost,
    kept,
    handle,
    w',
    ap (λ (l : List (Manager os → Manager os)). f ∷ l) e,
    (none', failed),
    c,
    h,
    d,
  )

  no_task :
      (f : Manager os → Manager os) (w : os.World)
      → (rtos.create settings w).0 ≡ none
      → use_instance f (absent w) ≡ absent (rtos.create settings w).1
  unfolding use_instance instance' construct created call_member
  no_task f w e = rw e refl

  a_task :
      (f : Manager os → Manager os) (handle : ℕ) (w : os.World)
      → (rtos.create settings w).0 ≡ some handle
      → use_instance f (absent w) ≡ present (made (f ∷ []) handle (rtos.create settings w).1)
  unfolding use_instance instance' construct created call_member
  a_task f handle w e = rw e refl

  -- Whatever a program does with the manager through instance(): as long as the creation of the
  -- task fails, each use fails and takes no effect; the first use for which the task is created is
  -- on a new manager, and all later ones are, in order, on that same manager with that same task,
  -- which the destructor deletes.
  pub uses_one_manager :
      (fs : List (Manager os → Manager os)) (w : os.World) → Outcome fs w (uses fs (absent w))
  unfolding destroy
  uses_one_manager [] w = inl (w, refl, refl)
  uses_one_manager (f ∷ fs) w =
      let w' : os.World = (rtos.create settings w).1 in
      elim (Option-cases (rtos.create settings w).0) [
        | inl e ↦
            rw (no_task f w e) (after_first f fs w (uses fs (absent w')) e (uses_one_manager fs w'))
        | inr (handle, e) ↦ rw (a_task f handle w e) (
            inr (
              [],
              f ∷ fs,
              handle,
              w,
              refl,
              refl,
              e,
              uses_present fs (made (f ∷ []) handle w'),
              refl,
            ))
      ]
