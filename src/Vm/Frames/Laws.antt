-- ===== src/Vm/Frames/Laws.antt =====
-- svm/vm.c: what the suspension counter and the list of frames do.
use sedona_vm_debug.Base.{ℕ, zero, suc, ◌-◌, ◌<◌, ◌≡◌, refl, true, false, List, ◌∷◌, arith}
use sedona_vm_debug.Memory.{undefined, out_of_fuel}
use sedona_vm_debug.Vm.Frames.{
  on_vm_suspend, on_vm_resume, is_vm_suspended, FrameContainer, Frames, remove_frame, is_frame,
}

-- A resume undoes a suspend, and a suspend a resume, at every value of the counter, which is below
-- 256.
pub on_vm_resume-on_vm_suspend :
    (c : ℕ) → c < 256 → (on_vm_resume (on_vm_suspend c) ≡ c) × (on_vm_suspend (on_vm_resume c) ≡ c)
unfolding on_vm_suspend on_vm_resume
on_vm_resume-on_vm_suspend c h = (omega arith, omega arith)

-- The counter after `k` resumes.
unfoldable pub resumes : ℕ → ℕ → ℕ
resumes zero c = c
resumes (suc k) c = on_vm_resume (resumes k c)

resumes_lem : (k : ℕ) → k < 256 → resumes (suc k) 0 ≡ 255 - k
unfolding on_vm_resume resumes
resumes_lem zero h = refl
resumes_lem (suc k) h =
    let ih : resumes (suc k) 0 ≡ 255 - k = resumes_lem k (omega arith) in rw ih (omega arith)

-- A machine that is not suspended counts as suspended after a resume, and still after any number of
-- resumes from 1 to 255.
pub resumes-is_vm_suspended : (k : ℕ) → k < 255 → is_vm_suspended (resumes (suc k) 0) ≡ true
unfolding is_vm_suspended
resumes-is_vm_suspended k h = rw (resumes_lem k (omega arith)) (ground arith)

-- Where the first frame is not the one asked for, `remove_frame` never ends, however many rounds it
-- is given and whatever frames follow.
pub remove_frame-hangs :
    (rounds fp id : ℕ) (s : Frames) (frame : FrameContainer) (rest : List FrameContainer)
    → s.frames ≡ frame ∷ rest
    → is_frame fp id frame ≡ false
    → remove_frame rounds fp id s ≡ out_of_fuel
unfolding remove_frame
remove_frame-hangs zero fp id s frame rest at other = refl
remove_frame-hangs (suc rounds) fp id s frame rest at other =
    simp (at, other) (remove_frame-hangs rounds fp id s frame rest at other)

-- Where the first frame is the one asked for and others follow it, `remove_frame` runs into
-- undefined behaviour.
pub remove_frame-undefined :
    (rounds fp id : ℕ) (s : Frames) (frame next : FrameContainer) (rest : List FrameContainer)
    → s.frames ≡ frame ∷ next ∷ rest
    → is_frame fp id frame ≡ true
    → remove_frame (suc rounds) fp id s ≡ undefined
unfolding remove_frame
remove_frame-undefined rounds fp id s frame next rest at this = simp (at, this) (ground arith)
