-- ===== src/Tests.antt =====
-- Concrete runs of the models.
mod Queue
mod Objects
mod Timer
mod Text
mod Disk
mod Volume
mod File
mod Mqtt
mod Copy
mod Semaphore
mod MqttApp
mod Console
mod Esp
mod Http
mod EspMount
mod EspFile
mod Task
mod EspTask
mod EspTimer
mod EspDisk
mod EspCopy
