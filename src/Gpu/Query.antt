-- ===== src/Gpu/Query.antt =====
-- execShell and the first part of GetSerialNumbers of pkg/gpu/gpu.go, and parseSMIDevice of
-- pkg/gpu/smi.go. The exec stream of the API server and the XML reader are parameters.
use gpuid.Base.{
  ℕ, ◌≡◌, refl, ap, Bool, true, false, Bool-cases, inl, inr, List, [], ◌∷◌, map, if◌then◌else◌,
  Option, none, some, Text, codes,
}
use gpuid.Gpu.Serials
use gpuid.Gpu.Xml.{Element, element, Elements, text_of, kids_of, each_of}
use gpuid.Gpu.Smi.Device.{Gpu, decode_gpu, NvsmiDevice, decode_nvsmi_device}
use gpuid.Gpu.Smi.Modes.{decode_platform_info}

-- An ExitError has an exit code.
pub data StreamError : Type 0 where
  exit_error : ℕ → StreamError
  transport_error : StreamError

pub record Streamed : Type 0 where
  pub stdout : Text
  pub stderr : Text
  pub failed : Option StreamError

-- NewSPDYExecutor and StreamWithContext for the command in a container of a pod P, over the state W
-- of the world; `true` is an error.
pub record Executor (P W : Type 0) : Type 0 where
  pub new_executor : P → Text → W → Bool × W
  pub stream : P → Text → W → Streamed × W

pub data ExecError : Type 0 where
  no_executor execution_stream_error : ExecError
  command_failed : ℕ → ExecError

unfoldable pub exec_error : StreamError → ExecError
exec_error (exit_error code) = command_failed code
exec_error transport_error = execution_stream_error

-- xml.Unmarshal: the root may have any name
unfoldable pub unmarshal : Element → NvsmiDevice
unmarshal (element name text kids) = decode_nvsmi_device kids

-- gpu.Serial and gpu.PlatformInfo.ChassisSerialNumber, all that is read of a GPU
unfoldable pub read_gpu : Gpu → Serials.Gpu
read_gpu g = record {
  serial = g.serial;
  chassis_serial_number = g.platform_info.chassis_serial_number;
}

module _ {P W : Type 0} (executor : Executor P W) (xml : Text → Option Element) where
  -- what follows the stream: the output, and an error
  unfoldable pub after_stream : Streamed → Text × Option ExecError
  after_stream s = (s.stdout, elim s.failed [ none ↦ none | some e ↦ some (exec_error e) ])

  -- execShell
  unfoldable pub exec_shell : P → Text → W → (Text × Option ExecError) × W
  exec_shell pod container w =
      let (failed, w') = executor.new_executor pod container w in
      let (s, w'') = executor.stream pod container w' in
      if failed then (([], some no_executor), w') else (after_stream s, w'')

  -- parseSMIDevice
  unfoldable pub parse_smi_device : Text → Option NvsmiDevice
  unfolding unmarshal
  parse_smi_device data' = elim (xml data') [ none ↦ none | some root ↦ some (unmarshal root) ]

  unfoldable pub after_exec : Text × Option ExecError → Option (List Serials.Gpu)
  unfolding parse_smi_device
  after_exec (stdout, some e) = none
  after_exec (stdout, none) = elim (parse_smi_device stdout) [
    | none ↦ none
    | some d ↦ some (map read_gpu d.gpus)
  ]

  -- GetSerialNumbers, up to the loop over the GPUs
  unfoldable pub query_smi : P → Text → W → Option (List Serials.Gpu) × W
  query_smi pod container w = let (r, w') = exec_shell pod container w in (after_exec r, w')

-- The serial and the chassis serial of a gpu element.
abbrev pub reported : Elements → Serials.Gpu
reported kids = record {
  serial = text_of (codes "serial") kids;
  chassis_serial_number =
      text_of (codes "chassis_serial_number") (kids_of (codes "platformInfo") kids);
}

read-decode : (gpus : List Elements) → map read_gpu (map decode_gpu gpus) ≡ map reported gpus
unfolding read_gpu decode_gpu decode_platform_info
read-decode [] = refl
read-decode (kids ∷ gpus) = ap (◌∷◌ (reported kids)) (read-decode gpus)

module _ {P W : Type 0} (executor : Executor P W) (xml : Text → Option Element) where
  -- The world in which the executor is made, and what the stream then gives.
  abbrev connected : P → Text → W → W
  connected pod container w = (executor.new_executor pod container w).1

  abbrev streamed : P → Text → W → Streamed × W
  streamed pod container w = executor.stream pod container (connected pod container w)

  -- What a query has come to, and why.
  pub data IsQueried (pod : P) (container : Text) (w : W)
      : Option (List Serials.Gpu) × W → Type 0 where
    not_created :
        (executor.new_executor pod container w).0 ≡ true
        → IsQueried pod container w (none, connected pod container w)
    not_run :
        {e : StreamError}
        → (executor.new_executor pod container w).0 ≡ false
        → (streamed pod container w).0.failed ≡ some e
        → IsQueried pod container w (none, (streamed pod container w).1)
    not_xml :
        (executor.new_executor pod container w).0 ≡ false
        → (streamed pod container w).0.failed ≡ none
        → xml (streamed pod container w).0.stdout ≡ none
        → IsQueried pod container w (none, (streamed pod container w).1)
    queried :
        {name text : Text} {kids : Elements}
        → (executor.new_executor pod container w).0 ≡ false
        → (streamed pod container w).0.failed ≡ none
        → xml (streamed pod container w).0.stdout ≡ some (element name text kids)
        → IsQueried pod container w
            (some (map reported (each_of (codes "gpu") kids)), (streamed pod container w).1)

  after_stream-IsQueried :
      (pod : P) (container : Text) (w : W) (failed : Option StreamError) (root : Option Element)
      → (executor.new_executor pod container w).0 ≡ false
      → (streamed pod container w).0.failed ≡ failed
      → xml (streamed pod container w).0.stdout ≡ root
      → IsQueried pod container w (
        after_exec executor xml (after_stream executor xml (streamed pod container w).0),
        (streamed pod container w).1,
      )
  unfolding after_exec after_stream parse_smi_device unmarshal decode_nvsmi_device
  after_stream-IsQueried pod container w (some e) root c h q = rw h (not_run c h)
  after_stream-IsQueried pod container w none none c h q = rw (h, after_exec, q) (not_xml c h q)
  after_stream-IsQueried pod container w none (some (element name text kids)) c h q =
      rw (h, after_exec, q, read-decode (each_of (codes "gpu") kids)) (queried c h q)

  -- A query of nvidia-smi fails exactly in three ways: no executor can be made, and the command is
  -- not run; the stream ends with an error, whatever was written to the standard output; or that is
  -- no XML. Otherwise it gives the serial and the chassis serial of each gpu element under the
  -- root, in order, whatever is on the standard error.
  pub query_smi-IsQueried :
      (pod : P) (container : Text) (w : W)
      → IsQueried pod container w (query_smi executor xml pod container w)
  unfolding query_smi exec_shell
  query_smi-IsQueried pod container w =
      elim (Bool-cases (executor.new_executor pod container w).0) [
        | inl e ↦ rw e (unfold after_exec in not_created e)
        | inr e ↦ rw e (after_stream-IsQueried pod container w _ _ e refl refl)
      ]
