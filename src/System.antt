-- ===== src/System.antt =====
-- The wrappers of system calls (utils/MapFile.h, utils/SysCmd.h, utils/Monitor.h, utils/Numa.h). What
-- the system answers is an argument, and what is asked of it is told to a log, the last in front.
pub mod Laws
mod Tests
use network_demo.Base.{
  ℕ, zero, suc, ◌+◌, ◌*◌, ◌-◌, ◌^◌, ◌%◌, Bool, true, false, ◌==◌, if◌then◌else◌, List, [], ◌∷◌,
  ◌++◌, Option, none, some,
}
use network_demo.Base.Text.{ℤ, pos, negsuc, codes}

pub data Action : Type 0 where
  opened closed : ℕ → Action
  mapped : (fd length : ℕ) → Action
  unmapped : (addr length : ℕ) → Action
  told_error : (what : List ℕ) → Action
  set_affinity : (target mask : ℕ) → Action

-- A function that returns, or that ends the program.
pub data Ended {ℓ} (A : Type ℓ) : Type ℓ where
  returned : A → List Action → Ended A
  exited : List Action → Ended A

-- `handle_error`
unfoldable pub handle_error {ℓ} : {A : Type ℓ} → List ℕ → List Action → Ended A
handle_error what log = exited (told_error what ∷ log)

-- What `open`, `fstat` and `mmap` answer: a descriptor, the size of the file, an address.
pub record Files : Type 0 where
  pub open_file : Option ℕ
  pub file_size : Option ℕ
  pub map_at : Option ℕ

-- `mmap_file`: the address and the length.
unfoldable pub mmap_file : Files → List Action → Ended (ℕ × ℕ)
unfolding handle_error
mmap_file files log = elim (files.open_file) [
  | none ↦ handle_error (codes "open") log
  | some fd ↦ elim (files.file_size) [
    | none ↦ handle_error (codes "fstat") (opened fd ∷ log)
    | some length ↦ elim (files.map_at) [
      | none ↦ handle_error (codes "mmap") (opened fd ∷ log)
      | some addr ↦ returned (addr, length) (closed fd ∷ mapped fd length ∷ opened fd ∷ log)
    ]
  ]
]

-- `munmap_file`
unfoldable pub munmap_file : (succeeds : Bool) → (addr length : ℕ) → List Action → Ended Bool
unfolding handle_error
munmap_file succeeds addr length log =
    if succeeds
    then returned true (unmapped addr length ∷ log)
    else handle_error (codes "munmap") log

-- A buffer as a C string: the bytes in front of the first zero.
unfoldable pub c_string : List ℕ → List ℕ
c_string [] = []
c_string (zero ∷ bytes) = []
c_string (suc c ∷ bytes) = suc c ∷ c_string bytes

-- The loop of `exeCmd` over the buffers that `fgets` fills.
unfoldable pub read_lines : List (List ℕ) → List ℕ → List ℕ
unfolding c_string
read_lines [] ss = ss
read_lines (line ∷ lines) ss = elim (c_string line) [
  | [] ↦ ss
  | c ∷ cs ↦ read_lines lines (ss ++ (c ∷ cs))
]

-- `exeCmd`, on the pipe that `popen` opens.
unfoldable pub exe_cmd : (pipe : Option ℕ) → List (List ℕ) → List ℕ → List Action → Ended (List ℕ)
unfolding read_lines
exe_cmd none lines cmd log = exited (told_error (codes "Error commend: " ++ cmd) ∷ log)
exe_cmd (some pipe) lines cmd log = returned (read_lines lines []) (closed pipe ∷ opened pipe ∷ log)

-- A `long` as a `size_t`.
unfoldable pub to_size : ℤ → ℕ
to_size (pos n) = n % 2 ^ 64
to_size (negsuc n) = 2 ^ 64 - 1 - n % 2 ^ 64

-- `getPeakRSS` and `getCurrentRSS`, on what the system answers.
unfoldable pub get_peak_rss : (ru_maxrss : ℤ) → ℕ
unfolding to_size
get_peak_rss ru_maxrss = to_size ru_maxrss * 1024 % 2 ^ 64

unfoldable pub get_current_rss :
    (fp : Option ℕ) → (scanned : Option ℤ) → (page_size : ℤ) → List Action → Ended ℕ
unfolding to_size
get_current_rss none scanned page_size log = returned 0 log
get_current_rss (some fp) none page_size log = returned 0 (closed fp ∷ opened fp ∷ log)
get_current_rss (some fp) (some rss) page_size log =
    returned (to_size rss * to_size page_size % 2 ^ 64) (closed fp ∷ opened fp ∷ log)

-- `bindProcessCPU` and `bindThreadCPU`, for the name of the call that they make.
unfoldable pub bind_cpu :
    (call : List ℕ) → (succeeds : Bool) → (target mask : ℕ) → List Action → List Action
bind_cpu call succeeds target mask log =
    let asked = set_affinity target mask ∷ log in
    if succeeds then asked else told_error call ∷ asked

unfoldable pub bind_process_cpu : Bool → (pid mask : ℕ) → List Action → List Action
unfolding bind_cpu
bind_process_cpu succeeds pid mask log = bind_cpu (codes "sched_setaffinity") succeeds pid mask log

unfoldable pub bind_thread_cpu : Bool → (thread mask : ℕ) → List Action → List Action
unfolding bind_cpu
bind_thread_cpu succeeds thread mask log =
    bind_cpu (codes "pthread_setaffinity_np") succeeds thread mask log
