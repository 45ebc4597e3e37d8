-- ===== src/NodeAgent/Pods.antt =====
-- Sampling keeps every pod's state well-formed, and tracks the peak of its memory.
use pp_vpa.Prelude.{
  ℕ, ◌≡◌, refl, ◌∙◌, sym, Bool, false, ◌&&◌, List, [], ◌∷◌, Option, none, some, String, arith, max,
  All, ok, Returns, text_append, ltb,
}
use pp_vpa.Float.{Float, Ieee, nought, ltf}
use pp_vpa.Clock.{Time}
use pp_vpa.Histogram.{IsValid, default_cpu_options}
use pp_vpa.Ingest.Safety.{IsExtractor, record_memory-Returns}
use pp_vpa.Text.{scan_uint}
use pp_vpa.Oom
use pp_vpa.Oom.{Events, EventsError}
use pp_vpa.Cgroup.{memory_events_file}
use pp_vpa.NodeAgent.{Host, PodState, Agent}
use pp_vpa.NodeAgent.Sampling.{sample_usage, sample_ooms, sample_pod, sample_pods, sample_all}

-- What memory.current says: the number in it, 0 where there is none.
abbrev pub number_in : Option String → ℕ
number_in none = 0
number_in (some b) = scan_uint b

abbrev pub usage : Host → String → ℕ
usage host path = number_in (host.read_all (text_append path "/memory.current"))

pub data Pointwise {A : Type 0} (R : A → A → Type 0) : List A → List A → Type 0 where
  nil : Pointwise R [] []
  cons : {x y : A} {xs ys : List A} → R x y → Pointwise R xs ys → Pointwise R (x ∷ xs) (y ∷ ys)

module _ {F : Type 0} ⦃float : Float F⦄ (laws : Ieee F) where
  -- A valid cpu histogram with the default options, a well-formed extractor, and no memory limit.
  pub record IsPod (st : PodState F) : Type 0 where
    pub cpu : IsValid st.cpu.h × (st.cpu.h.opts ≡ default_cpu_options)
    pub mem : IsExtractor laws st.mem
    pub no_limit : st.mem_limit ≡ nought
    pub no_kills : st.prev_oom_kill ≡ 0

  -- The table holds each pod under its UID.
  abbrev pub IsEntry : String × PodState F → Type 0
  IsEntry (key, st) = (key ≡ st.uid) × IsPod st

  -- A pod before and after a round of sampling: the peak rises to the usage, the rest is kept.
  pub record Sampled (used : ℕ) (st st' : PodState F) : Type 0 where
    pub pod : IsPod st'
    pub same_uid : st'.uid ≡ st.uid
    pub same_name : (st'.namespace ≡ st.namespace) × (st'.name ≡ st.name)
    pub same_cpu : st'.cpu ≡ st.cpu
    pub peak : st'.mem.abs_peak ≡ max st.mem.abs_peak used

  sample_usage-Sampled :
      (r : Option String) (t : Time) (st : PodState F)
      → IsPod st
      → Returns (Sampled (number_in r) st) (sample_usage r t st)
  unfolding sample_usage
  sample_usage-Sampled none t st v = (
    st,
    refl,
    record {
      pod = v;
      same_uid = refl;
      same_name = (refl, refl);
      same_cpu = refl;
      peak = omega arith;
    },
  )
  sample_usage-Sampled (some b) t st v =
      let (m, e, (w, p)) = record_memory-Returns laws st.mem (scan_uint b) t v.mem in
      (
        record st { mem = m },
        rw e refl,
        record {
          pod = record { cpu = v.cpu; mem = w; no_limit = v.no_limit; no_kills = v.no_kills };
          same_uid = refl;
          same_name = (refl, refl);
          same_cpu = refl;
          peak = p;
        },
      )

  -- Without a memory limit no OOM kill is recorded.
  sample_ooms-idle :
      (r : Events × Option EventsError) (t : Time) (st : PodState F)
      → st.mem_limit ≡ nought
      → sample_ooms r t st ≡ ok st
  unfolding sample_ooms
  sample_ooms-idle (ev, some e) t st h = refl
  sample_ooms-idle (ev, none) t st h =
      rw (idle st.mem_limit (ltb st.prev_oom_kill ev.oom_kill) h) refl
    where
      idle : (x : F) (b : Bool) → x ≡ nought → (b && ltf nought x) ≡ false
      idle x b e = ground (arith, e)

  sample_pod-Sampled :
      (host : Host) (t : Time) (st : PodState F)
      → IsPod st
      → Returns (Sampled (usage host st.cgroup_path) st) (sample_pod host t st)
  unfolding sample_pod
  sample_pod-Sampled host t st v =
      let (st', e, s) =
        sample_usage-Sampled (host.read_all (text_append st.cgroup_path "/memory.current")) t st
          v in
      (
        st',
        rw e (
            sample_ooms-idle (Oom.parse (host.open_file (memory_events_file st.cgroup_path))) t st'
              s.pod.no_limit),
        s,
      )

  abbrev pub SampledEntry : Host → String × PodState F → String × PodState F → Type 0
  SampledEntry host (k, st) (k', st') =
      (k' ≡ k) × IsEntry (k', st') × Sampled (usage host st.cgroup_path) st st'

  sample_pods-Sampled :
      (host : Host) (t : Time) (pods : List (String × PodState F))
      → All IsEntry pods
      → Returns (Pointwise (SampledEntry host) pods) (sample_pods host t pods)
  unfolding sample_pods
  sample_pods-Sampled host t [] h = ([], refl, nil)
  sample_pods-Sampled host t ((k, st) ∷ pods) ((e, v), h) =
      let (st', e1, s) = sample_pod-Sampled host t st v in
      let (pods', e2, r) = sample_pods-Sampled host t pods h in
      ((k, st') ∷ pods', rw (e1, e2) refl, cons (refl, ((e ∙ sym s.same_uid), s.pod), s) r)

  Pointwise-entries :
      (host : Host) {pods pods' : List (String × PodState F)}
      → Pointwise (SampledEntry host) pods pods'
      → All IsEntry pods'
  Pointwise-entries host nil = tt
  Pointwise-entries host (cons r rs) = (r.1, Pointwise-entries host rs)

  -- What a round of sampling makes of an agent.
  pub record SampledAgent {Q : Type 0} (host : Host) (a b : Agent F Q) : Type 0 where
    pub pods : Pointwise (SampledEntry host) a.pods b.pods
    pub entries : All IsEntry b.pods
    pub same_queue : b.queue ≡ a.queue
    pub same_cfg : b.cfg ≡ a.cfg

  -- sampleAll of an agent whose pods stand under their UIDs, with valid histograms, an absolute
  -- peak not below the current one and no memory limit, returns, whatever the files hold: every
  -- pod keeps its place, its UID, its name and its cpu histogram and stays so, and its absolute
  -- memory peak becomes the higher of the former one and the number in memory.current, or 0
  -- where none can be read.
  pub sample_all-SampledAgent :
      {Q : Type 0} (host : Host) (t : Time) (a : Agent F Q)
      → All IsEntry a.pods
      → Returns (SampledAgent host a) (sample_all host t a)
  unfolding sample_all
  sample_all-SampledAgent host t a h =
      let (pods, e, r) = sample_pods-Sampled host t a.pods h in
      (
        record a { pods = pods },
        rw e refl,
        record { pods = r; entries = Pointwise-entries host r; same_queue = refl; same_cfg = refl },
      )
