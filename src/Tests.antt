-- ===== src/Tests.antt =====
-- Runs of the models at concrete inputs, and the theorems at inputs that meet their hypotheses.
mod HttpLine
mod HttpRequest
mod HttpResponse
mod HttpReading
mod TimeHeap
mod TimerList
mod TimeWheel
mod ProcessPool
mod SharedChat
mod ThreadPool
mod PollChat
mod CgiServer
mod NonactiveConnect
mod WebServer
mod EpollModes
