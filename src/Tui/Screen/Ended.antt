-- ===== src/Tui/Screen/Ended.antt =====
-- How the user interface ends, and what it leaves of the terminal.
use proxifyre_rs.Prelude.{
  ◌==◌, ◌≡◌, refl, sym, subst, Bool, true, false, ◌⊎◌, inl, inr, List, [], ◌∷◌, arith, Bool-cases,
}
use proxifyre_rs.Tui.Screen.{
  Terminal, KeyEventKind, KeyCode, Input, Round, Calls, Ending, running, error, done, quits,
  read_input, run_rounds, restore, run_loop, run,
}

abbrev pub Shown : Terminal → Type 0
Shown t = (t.raw_mode ≡ true) × (t.alternate_screen ≡ true)

abbrev pub Restored : Terminal → Type 0
Restored t = (t.raw_mode ≡ false) × (t.alternate_screen ≡ false) × (t.cursor ≡ true)

-- A round has seen the flag of the shut-down.
abbrev pub Seen : List Round → Type 0
Seen [] = ⊥
Seen (x ∷ xs) = (x.should_shutdown ≡ true) ⊎ Seen xs

-- The key q, or Ctrl+C, has been pressed.
abbrev pub IsQuit : KeyEventKind → KeyCode → Bool → Type 0
IsQuit KeyEventKind.press (KeyCode.char c) control = ((c ≡ 99) × (control ≡ true)) ⊎ (c ≡ 113)
IsQuit KeyEventKind.press KeyCode.other control = ⊥
IsQuit KeyEventKind.repeat code control = ⊥
IsQuit KeyEventKind.release code control = ⊥

abbrev pub Quits : Input → Type 0
Quits Input.failed = ⊥
Quits Input.nothing = ⊥
Quits Input.other = ⊥
Quits (Input.key k) = IsQuit k.kind k.code k.control

-- One of the rounds has had such a key.
abbrev pub Pressed : List Round → Type 0
Pressed [] = ⊥
Pressed (x ∷ xs) = Quits x.input ⊎ Pressed xs

-- What is left of the screen: it is shown while the loop runs, and after an error too.
abbrev pub Left : List Round → Bool → Ending → Terminal → Type 0
Left xs requested running t = Shown t
Left xs requested error t = Shown t
Left xs requested done t = Restored t × (((requested ≡ true) × Pressed xs) ⊎ Seen xs)

abbrev pub AllSucceed : Calls → Type 0
AllSucceed c =
    (c.enable_raw_mode ≡ true)
    × (c.enter_alternate_screen ≡ true)
    × (c.create ≡ true)
    × (c.clear ≡ true)
    × (c.leave_alternate_screen ≡ true)
    × (c.disable_raw_mode ≡ true)
    × (c.show_cursor ≡ true)

-- The loop is left only by a request to shut down.
abbrev Asked : List Round → Ending × Bool → Type 0
Asked xs (running, requested) = Unit
Asked xs (error, requested) = Unit
Asked xs (done, requested) = ((requested ≡ true) × Pressed xs) ⊎ Seen xs

later : (x : Round) (xs : List Round) (o : Ending × Bool) → Asked xs o → Asked (x ∷ xs) o
later x xs (running, requested) a = tt
later x xs (error, requested) a = tt
later x xs (done, requested) (inl (e, p)) = inl (e, inr p)
later x xs (done, requested) (inr s) = inr (inr s)

quits-IsQuit :
    (kind : KeyEventKind) (code : KeyCode) (control : Bool)
    → quits (record { kind = kind; code = code; control = control }) ≡ true
    → IsQuit kind code control
unfolding quits
quits-IsQuit KeyEventKind.press (KeyCode.char c) true h = elim (Bool-cases (c == 99)) [
  | inl e ↦ inl (ground arith, refl)
  | inr e ↦ inr (ground arith)
]
quits-IsQuit KeyEventKind.press (KeyCode.char c) false h = inr (ground arith)
quits-IsQuit KeyEventKind.press KeyCode.other control h = absurd (ground arith)
quits-IsQuit KeyEventKind.repeat code control h = absurd (ground arith)
quits-IsQuit KeyEventKind.release code control h = absurd (ground arith)

read_input-Asked :
    (xs : List Round) (i : Input) (o : Ending × Bool)
    → (Quits i → Pressed xs)
    → Asked xs o
    → Asked xs (read_input i o)
read_input-Asked xs Input.failed o p a = tt
read_input-Asked xs Input.nothing o p a = a
read_input-Asked xs Input.other o p a = a
read_input-Asked xs (Input.key k) o p a = elim (Bool-cases (quits k)) [
  | inl e ↦ rw (e, read_input) (inl (refl, p (quits-IsQuit k.kind k.code k.control e)))
  | inr e ↦ rw (e, read_input) a
]

run_rounds-Asked : (xs : List Round) → Asked xs (run_rounds xs)
unfolding run_rounds
run_rounds-Asked [] = tt
run_rounds-Asked (x ∷ xs) = elim (Bool-cases x.should_shutdown) [
  | inl e ↦
      let to : run_rounds (x ∷ xs) ≡ (done, false) = ground arith in
      subst (Asked (x ∷ xs)) (sym to) (inr (inl e))
  | inr e ↦ elim (Bool-cases x.draws) [
    | inl g ↦
        let to : run_rounds (x ∷ xs) ≡ read_input x.input (run_rounds xs) = ground arith in
        subst (Asked (x ∷ xs)) (sym to) (
          read_input-Asked (x ∷ xs) x.input (run_rounds xs) inl
            (later x xs (run_rounds xs) (run_rounds-Asked xs)))
    | inr g ↦
        let to : run_rounds (x ∷ xs) ≡ (error, false) = ground arith in
        subst (Asked (x ∷ xs)) (sym to) tt
  ]
]

restored :
    (c : Calls) (t : Terminal)
    → AllSucceed c
    → let (t', ending) = restore c t in (ending ≡ done) × Restored t'
unfolding restore
restored c t s = ground arith

run_loop-Left :
    (c : Calls) (xs : List Round) (t : Terminal) (o : Ending × Bool)
    → AllSucceed c
    → Shown t
    → run_rounds xs ≡ o
    → let ((t', ending), requested) = run_loop c xs t in Left xs requested ending t'
unfolding run_loop
run_loop-Left c xs t (running, requested) s shown e = rw (e, run_loop) shown
run_loop-Left c xs t (error, requested) s shown e = rw (e, run_loop) shown
run_loop-Left c xs t (done, requested) s shown e =
    let (ended, back) = restored c t s in
    let asked : Asked xs (done, requested) = subst (Asked xs) e (run_rounds-Asked xs) in
    rw (e, run_loop) (rw (ended, Left) (back, asked))

-- Where the calls on the terminal before and after the loop succeed: when the user interface ends,
-- the raw mode and the alternate screen have been left and the cursor is shown; and it has requested
-- the shut-down after a press of q or Ctrl+C, or has seen the flag of the shut-down. While it runs, and also when drawing or reading a key has failed and it has
-- returned, the terminal is in raw mode and shows the alternate screen.
pub run-Left :
    (c : Calls) (xs : List Round) (t : Terminal)
    → AllSucceed c
    → let ((t', ending), requested) = run c xs t in Left xs requested ending t'
unfolding run
run-Left c xs t s =
    let shown : Terminal = record t { raw_mode = true; alternate_screen = true } in
    let to : run c xs t ≡ run_loop c xs shown = ground arith in
    subst (λ o. Left xs o.1 o.0.1 o.0.0) (sym to)
      (run_loop-Left c xs shown (run_rounds xs) s (refl, refl) refl)
