-- ===== src/Orchestrator.antt =====
-- internal/orchestrator: the restart policy, the event bus, the server lifecycle, the crash
-- observer, the self-healer and the event recorder.
pub mod RestartPolicy
pub mod EventBus
pub mod Lifecycle
pub mod CrashObserver
pub mod SelfHealer
pub mod EventRecorder
