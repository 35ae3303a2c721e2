-- ===== src/Tests/Alone.antt =====
-- The goroutines at a provider that has one instance to give, each alone.
use serverless_gpu_linode.Common.{false}
use serverless_gpu_linode.Orchestrator.{Orchestrator, new_orchestrator}
use serverless_gpu_linode.Tests.Lifetimes.{Site, cfg}

abbrev idle : Orchestrator Site
idle = new_orchestrator cfg false
