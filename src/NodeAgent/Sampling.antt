-- ===== src/NodeAgent/Sampling.antt =====
-- sampleAll of internal/nodeagent/agent.go.
use pp_vpa.Prelude.{
  ◌&&◌, List, [], ◌∷◌, Option, none, some, String, text_append, ltb, if◌then◌else◌, Outcome, ok,
  ◌>>=◌,
}
use pp_vpa.Float.{Float, nought, ltf}
use pp_vpa.Clock.{Time}
use pp_vpa.Histogram.{HistogramError}
use pp_vpa.Text.{scan_uint}
use pp_vpa.Oom
use pp_vpa.Oom.{Events, EventsError, synthetic_sample}
use pp_vpa.Cgroup.{memory_events_file}
use pp_vpa.Ingest.{record_memory}
use pp_vpa.NodeAgent.{Host, PodState, Agent}

module _ {F : Type 0} ⦃float : Float F⦄ where
  -- One pod of sampleAll; what is read of the pressure files is discarded. First memory.current:
  unfoldable pub sample_usage :
      Option String → Time → PodState F → Outcome HistogramError (PodState F)
  sample_usage none t st = ok st
  sample_usage (some b) t st = do
    m ← record_memory st.mem (scan_uint b) t
    ok (record st { mem = m })

  -- and then the OOM kills.
  unfoldable pub sample_ooms :
      Events × Option EventsError → Time → PodState F → Outcome HistogramError (PodState F)
  sample_ooms (ev, some e) t st = ok st
  sample_ooms (ev, none) t st =
      let sample = record_memory st.mem (float.to_uint (synthetic_sample st.mem_limit)) t in
      if ltb st.prev_oom_kill ev.oom_kill && ltf nought st.mem_limit
      then (do m ← sample; ok (record st { mem = m; prev_oom_kill = ev.oom_kill }))
      else ok st

  unfoldable pub sample_pod : Host → Time → PodState F → Outcome HistogramError (PodState F)
  unfolding sample_usage sample_ooms
  sample_pod host t st = do
    used ← sample_usage (host.read_all (text_append st.cgroup_path "/memory.current")) t st
    sample_ooms (Oom.parse (host.open_file (memory_events_file st.cgroup_path))) t used

  unfoldable pub sample_pods :
      Host → Time → List (String × PodState F) → Outcome HistogramError (List (String × PodState F))
  unfolding sample_pod
  sample_pods host t [] = ok []
  sample_pods host t ((key, st) ∷ pods) = do
    st' ← sample_pod host t st
    pods' ← sample_pods host t pods
    ok ((key, st') ∷ pods')

  -- sampleAll: a pod's sample depends on no other pod, so the order of the range does not matter.
  unfoldable pub sample_all :
      {Q : Type 0} → Host → Time → Agent F Q → Outcome HistogramError (Agent F Q)
  unfolding sample_pods
  sample_all host t a = do pods ← sample_pods host t a.pods; ok (record a { pods = pods })
