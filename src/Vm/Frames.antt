-- ===== src/Vm/Frames.antt =====
-- svm/vm.c: the counter by which a debugger suspends the machine, and the list of frames.
pub mod Laws
use sedona_vm_debug.Base.{
  ℕ, zero, suc, ◌+◌, ◌-◌, ◌*◌, ◌^◌, ◌%◌, Bool, not, ◌||◌, List, [], ◌∷◌, Option, none, some, ◌==◌,
  ltb, leb, if◌then◌else◌, length, get_elem?, take, drop, ◌++◌,
}
use sedona_vm_debug.Packet.Ids.{Location}
use sedona_vm_debug.Memory.{Outcome, done, undefined, out_of_fuel, to_size}

-- `suspendCounter` is a `u1`.
unfoldable pub on_vm_suspend : ℕ → ℕ
on_vm_suspend count = (count + 1) % 256

-- The test reads `suspendCount`, which is a function and never null, so it always holds.
unfoldable pub on_vm_resume : ℕ → ℕ
on_vm_resume count = (count + 255) % 256

unfoldable pub is_vm_suspended : ℕ → Bool
is_vm_suspended count = not (count == 0)

-- A frame as the debugger sees it.
pub record FrameContainer : Type 0 where
  pub frame_id : ℕ
  pub frame_pointer : ℕ
  pub frame_location : Location

-- `frames`, which has `frames_count` entries in use and `framesAllocated` places, and the next id.
pub record Frames : Type 0 where
  pub frames : List FrameContainer
  pub frames_allocated : ℕ
  pub frameid_counter : ℕ

abbrev pub new_frame : ℕ → ℕ → Location → FrameContainer
new_frame id fp loc = record { frame_id = id; frame_pointer = fp; frame_location = loc }

-- Storage is always granted here.
unfoldable pub add_frame : ℕ → Location → Frames → Frames
add_frame fp loc s = record {
  frames = s.frames ++ (new_frame s.frameid_counter fp loc ∷ []);
  frames_allocated =
      if leb s.frames_allocated (length s.frames)
      then to_size (s.frames_allocated * 2)
      else s.frames_allocated;
  frameid_counter = to_size (s.frameid_counter + 1);
}

abbrev pub is_frame : ℕ → ℕ → FrameContainer → Bool
is_frame fp id frame = frame.frame_id == id || frame.frame_pointer == fp

-- What is left when the first frame is the one: a copy into the block that was just freed is
-- undefined, so only a frame that is alone can go.
abbrev pub remove_first : Frames → Outcome Frames
remove_first s = if length s.frames == 1 then done (record s { frames = [] }) else undefined

-- One round of the loop of `remove_frame`, by the list at `start`, and what the later rounds give.
abbrev pub remove_round : ℕ → ℕ → Frames → List FrameContainer → Outcome Frames → Outcome Frames
remove_round fp id s [] again = done s
remove_round fp id s (frame ∷ rest) again = if is_frame fp id frame then remove_first s else again

-- `remove_frame`, with `start` at zero in every round.
unfoldable pub remove_frame : ℕ → ℕ → ℕ → Frames → Outcome Frames
remove_frame zero fp id s = out_of_fuel
remove_frame (suc rounds) fp id s = remove_round fp id s s.frames (remove_frame rounds fp id s)

-- `newLocation`.
abbrev pub new_location : ℕ → ℕ → ℕ → ℕ → Location
new_location tag clazzid mid index = record {
  tag = tag;
  class_id = clazzid;
  method_id = mid;
  index = index;
}

unfoldable pub get_frames : Frames → ℕ
get_frames s = length s.frames

-- `init_vmController` leaves room for ten frames.
unfoldable pub init_frames : Frames
init_frames = record { frames = []; frames_allocated = 10; frameid_counter = 1 }
