-- ===== src/Kernel/Reachable/Invariant.antt =====
-- What holds at the kernel after any events: the invariant of the state, and the bound of the
-- channel.
use syncpond.Base.{
  Bool, ℕ, suc, ◌<◌, ◌≤◌, String, true, false, Result, ok, err, Result-cases, Bool-cases, inl, inr,
  u64_mod, length, if◌then◌else◌,
}
use syncpond.Base.Text.{trim, is_empty_str}
use syncpond.Extern.Json.{Json, Bytes}
use syncpond.Extern.Rocks.{Rocks}
use syncpond.Protocol.{CommandResponse, unload_room_response}
use syncpond.State.{AppState, Outcome, after}
use syncpond.State.Rooms.{is_room_loaded, create_room, unload_room, delete_room}
use syncpond.State.Labels.{set_room_label}
use syncpond.State.Reachable.{Call}
use syncpond.State.Reachable
use syncpond.State.Reachable.AppInvariant.{AppInv, AppInv-mono}
use syncpond.State.Reachable.Registry.{create_room-AppInv, set_room_label-AppInv}
use syncpond.State.Reachable.Calls.{step-AppInv}
use syncpond.Persistence.Rooms.{Action}
use syncpond.Kernel.{
  SyncpondKernel, Edited, absent, not_loaded, edited, finish_edit, channel_capacity,
}
use syncpond.Kernel.Writing.{
  handle_write_fragment_among, nobody, set_value, persist_value, announce_value, parse_value,
  handle_write_fragment, write_value,
}
use syncpond.Kernel.Loading.{handle_new_room, handle_unload_room, kernel_delete_room, settle}
use syncpond.Kernel.Reachable.Channel.{notify-bound}
use syncpond.Kernel.Reachable.Edits.{state_after}

module _ {V : Type 0} where
  one_of :
      (n : ℕ) (test : Bool) (app app' : AppState V)
      → AppInv n app
      → AppInv n app'
      → AppInv n (if test then app else app')
  one_of n true app app' h k = h
  one_of n false app app' h k = k

module _ {V D C : Type 0} where
  -- The state after `n` events, and a channel within its capacity.
  pub record KernelInv (n : ℕ) (k : SyncpondKernel V D C) : Type 0 where
    pub sound : AppInv n k.state
    pub room : length k.notifications ≤ channel_capacity

  pub KernelInv-mono : (n : ℕ) (k : SyncpondKernel V D C) → KernelInv n k → KernelInv (suc n) k
  KernelInv-mono n k h = record { sound = AppInv-mono n k.state h.sound; room = h.room }

  pub finish_edit-KernelInv :
      (open_db : ℕ → Result D String) (n i : ℕ) (response : CommandResponse)
      (action : Action D C (Unit {0})) (k : SyncpondKernel V D C) (e : Edited V)
      → AppInv (suc n) (state_after k.state e)
      → KernelInv n k
      → KernelInv (suc n) ((finish_edit open_db i response action k e).1)
  unfolding finish_edit
  finish_edit-KernelInv open_db n i response action k absent h inv = KernelInv-mono n k inv
  finish_edit-KernelInv open_db n i response action k not_loaded h inv = KernelInv-mono n k inv
  finish_edit-KernelInv open_db n i response action k (edited app) h inv = record {
    sound = h;
    room = inv.room;
  }

  pub settle-KernelInv :
      (n : ℕ) (response : Result (Unit {0}) String → CommandResponse) (k : SyncpondKernel V D C)
      (called : Outcome (AppState V))
      → AppInv (suc n) (after k.state called)
      → KernelInv n k
      → KernelInv (suc n) ((settle response k called).1)
  unfolding settle
  settle-KernelInv n response k (ok app) h inv = record { sound = h; room = inv.room }
  settle-KernelInv n response k (err e) h inv = KernelInv-mono n k inv

  pub new_room-KernelInv :
      (open_db : ℕ → Result D String) (n : ℕ) (name : String) (k : SyncpondKernel V D C)
      → suc (suc n) < u64_mod
      → KernelInv n k
      → KernelInv (suc n) ((handle_new_room open_db name k).1)
  unfolding handle_new_room
  new_room-KernelInv open_db n name k b inv =
      let made = create_room k.state in
      let h = create_room-AppInv n k.state b inv.sound in
      record {
        sound =
            one_of (suc n) (is_empty_str (trim name)) made.1
              (after made.1 (set_room_label made.0 name made.1)) h
              (set_room_label-AppInv (suc n) made.0 name made.1 h);
        room = inv.room;
      }

module _ {V D C : Type 0} ⦃J : Json V⦄ where
  -- A call of the state, made by the kernel.
  pub called-KernelInv :
      (n : ℕ) (c : Call V) (k : SyncpondKernel V D C)
      → suc (suc n) < u64_mod
      → KernelInv n k
      → AppInv (suc n) (Reachable.step c k.state)
  called-KernelInv n c k b inv = step-AppInv n c k.state b inv.sound

  write_value-KernelInv :
      ⦃R : Rocks D⦄ (open_db : ℕ → Result D String) (n i b : ℕ) (key : String) (v : V)
      (k : SyncpondKernel V D C)
      → suc (suc n) < u64_mod
      → KernelInv n k
      → KernelInv (suc n) (write_value open_db nobody i b key v k)
  unfolding write_value set_value persist_value announce_value nobody Reachable.step
  write_value-KernelInv open_db n i b key v k bound inv = record {
    sound = called-KernelInv n (Call.sets_fragment i b key v) k bound inv;
    room = notify-bound _ k.notifications inv.room;
  }

  pub write_fragment-KernelInv :
      ⦃R : Rocks D⦄ (open_db : ℕ → Result D String) (from_utf8_lossy : Bytes → String) (n i b : ℕ)
      (key : String) (content : Bytes) (k : SyncpondKernel V D C)
      → suc (suc n) < u64_mod
      → KernelInv n k
      → KernelInv (suc n) ((handle_write_fragment open_db from_utf8_lossy i b key content k).1)
  unfolding handle_write_fragment handle_write_fragment_among
  write_fragment-KernelInv open_db from_utf8_lossy n i b key content k bound inv =
      elim (Bool-cases (is_room_loaded i k.state)) [
        | inl loaded ↦ rw loaded (
            write_value-KernelInv open_db n i b key (parse_value from_utf8_lossy content) k bound
              inv)
        | inr unloaded ↦ rw unloaded (KernelInv-mono n k inv)
      ]

  pub unload_room-KernelInv :
      (n i : ℕ) (k : SyncpondKernel V D C)
      → suc (suc n) < u64_mod
      → KernelInv n k
      → KernelInv (suc n) ((handle_unload_room i k).1)
  unfolding handle_unload_room Reachable.step
  unload_room-KernelInv n i k bound inv =
      settle-KernelInv n unload_room_response k (unload_room i k.state)
        (called-KernelInv n (Call.unloads_room i) k bound inv) inv

  pub delete_room-KernelInv :
      (n i : ℕ) (k : SyncpondKernel V D C)
      → suc (suc n) < u64_mod
      → KernelInv n k
      → KernelInv (suc n) ((kernel_delete_room i k).1)
  unfolding kernel_delete_room Reachable.step
  delete_room-KernelInv n i k bound inv = elim (Result-cases (delete_room i k.state)) [
    | inl (app, done) ↦
        let h = called-KernelInv n (Call.deletes_room i) k bound inv in
        rw (done, kernel_delete_room) (record { sound = rw done at h; room = inv.room })
    | inr (e, failed) ↦ rw (failed, kernel_delete_room) (KernelInv-mono n k inv)
  ]
