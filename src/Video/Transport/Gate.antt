-- ===== src/Video/Transport/Gate.antt =====
-- `KeyframeGate` over a run of received frames.
use wire_app.Common.{◌≡◌, refl, true, false, List, [], ◌∷◌, arith, if◌then◌else◌}
use wire_app.Video.Transport.{EncodedVideoFrame, KeyframeGate, accept, require_keyframe}

-- The frames that the gate lets through, in order.
unfoldable pub passed : KeyframeGate → List EncodedVideoFrame → List EncodedVideoFrame
passed g [] = []
passed g (f ∷ fs) =
    let (g', shown) = accept g f in let rest = passed g' fs in if shown then f ∷ rest else rest

-- The frames from the first keyframe on.
unfoldable pub from_keyframe : List EncodedVideoFrame → List EncodedVideoFrame
from_keyframe [] = []
from_keyframe (f ∷ fs) = let rest = from_keyframe fs in if f.keyframe then f ∷ fs else rest

passed_open :
    (g : KeyframeGate) (fs : List EncodedVideoFrame) → g.waiting ≡ false → passed g fs ≡ fs
unfolding passed accept
passed_open g [] h = refl
passed_open g (f ∷ fs) h = ground (arith, passed_open (record { waiting = false }) fs refl)

passed_waiting :
    (g : KeyframeGate) (fs : List EncodedVideoFrame)
    → g.waiting ≡ true
    → passed g fs ≡ from_keyframe fs
unfolding passed accept from_keyframe
passed_waiting g [] h = refl
passed_waiting g (f ∷ fs) h =
    ground (arith, passed_open (record { waiting = false }) fs refl, passed_waiting g fs h)

-- After `require_keyframe`, in any state of the gate, exactly the frames from the next keyframe on
-- are let through: all frames before it are held back and none behind it.
pub passed-require_keyframe :
    (g : KeyframeGate) (fs : List EncodedVideoFrame)
    → passed (require_keyframe g) fs ≡ from_keyframe fs
unfolding require_keyframe
passed-require_keyframe g fs = passed_waiting _ fs refl

-- Once a frame has been let through, no frame is held back until a keyframe is required again.
pub accept-open :
    (g : KeyframeGate) (f : EncodedVideoFrame) (fs : List EncodedVideoFrame)
    → (accept g f).1 ≡ true
    → passed (accept g f).0 fs ≡ fs
unfolding accept
accept-open g f fs h = ground (arith, passed_open (record { waiting = false }) fs refl)
