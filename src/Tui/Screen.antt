-- ===== src/Tui/Screen.antt =====
-- `Tui::run` of tui.rs. What the terminal and the keyboard answer in each round, and whether the flag of
-- the shut-down is seen, is a parameter.
pub mod Ended
use proxifyre_rs.Prelude.{ℕ, Bool, true, false, ◌&&◌, ◌||◌, List, [], ◌∷◌, if◌then◌else◌, ◌==◌}

pub record Terminal : Type 0 where
  pub raw_mode : Bool
  pub alternate_screen : Bool
  pub cursor : Bool

pub data KeyEventKind : Type 0 where
  press repeat release : KeyEventKind

-- A character by its code, or another key.
pub data KeyCode : Type 0 where
  char : ℕ → KeyCode
  other : KeyCode

pub record KeyEvent : Type 0 where
  pub kind : KeyEventKind
  pub code : KeyCode
  pub control : Bool

-- What `poll` and then `read` give: an error, no event within 100 ms, a key, or another event.
pub data Input : Type 0 where
  failed nothing other : Input
  key : KeyEvent → Input

-- A round: whether `should_shutdown` holds at its start, whether `draw` succeeds, and the input.
pub record Round : Type 0 where
  pub should_shutdown : Bool
  pub draws : Bool
  pub input : Input

-- Which of the calls on the terminal succeed, before and after the loop.
pub record Calls : Type 0 where
  pub enable_raw_mode : Bool
  pub enter_alternate_screen : Bool
  pub create : Bool
  pub clear : Bool
  pub leave_alternate_screen : Bool
  pub disable_raw_mode : Bool
  pub show_cursor : Bool

-- The loop waits for its next round, an error has left it, or it has been left by `break`.
pub data Ending : Type 0 where
  running error done : Ending

abbrev pub is_press : KeyEventKind → Bool
is_press KeyEventKind.press = true
is_press KeyEventKind.repeat = false
is_press KeyEventKind.release = false

abbrev is_char : KeyCode → ℕ → Bool
is_char (KeyCode.char c) d = c == d
is_char KeyCode.other d = false

-- Ctrl+C or q.
unfoldable pub quits : KeyEvent → Bool
quits k = is_press k.kind && (is_char k.code b'c' && k.control || is_char k.code b'q')

-- What a round does with its input, and whether it requests the shut-down.
abbrev pub read_input : Input → Ending × Bool → Ending × Bool
read_input Input.failed rest = (error, false)
read_input Input.nothing rest = rest
read_input Input.other rest = rest
read_input (Input.key k) rest = if quits k then (done, true) else rest

unfoldable pub run_rounds : List Round → Ending × Bool
run_rounds [] = (running, false)
run_rounds (x ∷ xs) =
    let rest = run_rounds xs in
    if x.should_shutdown
    then (done, false)
    else if x.draws
    then read_input x.input rest
    else (error, false)

-- The calls after the loop. The alternate screen is left first, then the raw mode.
unfoldable pub restore : Calls → Terminal → Terminal × Ending
restore c t =
    let t1 = record t { alternate_screen = false } in
    let t2 = record t1 { raw_mode = false } in
    if c.leave_alternate_screen
    then (if c.disable_raw_mode
        then (if c.show_cursor then (record t2 { cursor = true }, done) else (t2, error))
        else (t1, error))
    else (t, error)

-- The loop, and what follows it where it is left by `break`.
unfoldable pub run_loop : Calls → List Round → Terminal → (Terminal × Ending) × Bool
unfolding run_rounds restore
run_loop c xs t =
    let (ending, requested) = run_rounds xs in
    (elim ending [ running ↦ (t, running) | error ↦ (t, error) | done ↦ restore c t ], requested)

unfoldable pub run : Calls → List Round → Terminal → (Terminal × Ending) × Bool
unfolding run_loop
run c xs t =
    let t1 = record t { raw_mode = true } in
    let t2 = record t1 { alternate_screen = true } in
    if c.enable_raw_mode
    then (if c.enter_alternate_screen
        then (if c.create && c.clear then run_loop c xs t2 else ((t2, error), false))
        else ((t1, error), false))
    else ((t, error), false)
